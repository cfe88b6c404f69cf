-- ===== src/Campaign/Attempt/Complete.antt =====
-- What a round of the loop of `Campaign.run` (hack/run_live_campaign.py) leaves of its slot.
use predictive_hpa.Prelude.{◌≡◌, ◌⊎◌, inl, inr, refl, true, none, some, List, [], ◌∷◌, Bool-cases}
use predictive_hpa.Prelude.Actions.{
  Outcome, returned, raised, ◌>>=◌, After, Ensures, Ensures-pure, Ensures-raise, Rest,
  Ensures-weaken, Ensures-outside_bind, Ensures-ensure_bind, Ensures-on_rest_bind,
}
use predictive_hpa.Campaign.Slot.{Exception, is_exception, SlotStatus, Slot}
use predictive_hpa.Campaign.Calls.{Calls, Snapshot}
use predictive_hpa.Campaign.Attempt.{
  slot_body, slot_failed, guarded_body, run_slot, the_only, catch, Work,
}

module _ {J A : Type 0} where
  abbrev Begun : A → Slot J A → Type 0
  Begun a s =
      (s.assignment ≡ a)
      × (s.status ≡ SlotStatus.running)
      × ((t : J) × (s.started_at ≡ some t))
      × (s.partial_run_dirs ≡ none)

  abbrev HasRun : A → Slot J A → Type 0
  HasRun a s = Begun a s × ((d : J) × (s.run_dir ≡ some d))

  abbrev HasAnalysis : A → Slot J A → Type 0
  HasAnalysis a s = HasRun a s × (s.analysis ≡ true)

  -- A slot that succeeded, with everything that it has to record.
  abbrev pub IsComplete : Slot J A → Type 0
  IsComplete s =
      (s.status ≡ SlotStatus.success)
      × ((t : J) × (s.started_at ≡ some t))
      × ((t : J) × (s.finished_at ≡ some t))
      × ((d : J) × (s.run_dir ≡ some d))
      × (s.analysis ≡ true)
      × (s.partial_run_dirs ≡ none)

  abbrev pub IsBroken : Slot J A → Type 0
  IsBroken s = (s.status ≡ SlotStatus.failed) ⊎ (s.status ≡ SlotStatus.running)

module _ {W J A : Type 0} (c : Calls W J A) (a : A) where
  abbrev Broken : Slot J A → Type 0
  Broken s = (s.assignment ≡ a) × IsBroken s

  abbrev Completed : Slot J A → Type 0
  Completed s = (s.assignment ≡ a) × IsComplete s

  Begun-Broken : (s : Slot J A) → Begun a s → Broken s
  Begun-Broken s (h, r, _, _) = (h, inr r)

  HasRun-Broken : (s : Slot J A) → HasRun a s → Broken s
  HasRun-Broken s h = Begun-Broken s h.0

  HasAnalysis-Broken : (s : Slot J A) → HasAnalysis a s → Broken s
  HasAnalysis-Broken s h = HasRun-Broken s h.0

  the_only_lem :
      (created : List J) (f : J → Work c (Snapshot J))
      → ((d : J) → Ensures (λ st. Begun a st.1) (f d) (Rest Completed) (Rest Broken))
      → Ensures (λ st. Begun a st.1) (the_only c created >>= f) (Rest Completed) (Rest Broken)
  unfolding Ensures ◌>>=◌
  the_only_lem [] f k (w, s) i = Begun-Broken s i
  the_only_lem (d ∷ []) f k st i = k d st i
  the_only_lem (d ∷ x ∷ xs) f k (w, s) i = Begun-Broken s i

  -- The try block completes the slot when it returns, and leaves it running when it raises.
  slot_body-IsComplete :
      (frozen : J) (initial : Snapshot J) (before : List J)
      → Ensures
          (λ st. Begun a st.1)
          (slot_body c frozen initial a before)
          (Rest Completed)
          (Rest Broken)
  unfolding slot_body
  slot_body-IsComplete frozen initial before =
      Ensures-outside_bind (Begun a) (Rest Completed) Broken _ _ Begun-Broken λ _.
        Ensures-outside_bind (Begun a) (Rest Completed) Broken _ _ Begun-Broken λ _.
          Ensures-outside_bind (Begun a) (Rest Completed) Broken _ _ Begun-Broken λ created.
            the_only_lem created _ λ run.
              Ensures-on_rest_bind (Begun a) (Rest Completed) Broken (HasRun a) _ _
                (λ s i. (i, (run, refl)))
                (Ensures-outside_bind (HasRun a) (Rest Completed) Broken _ _ HasRun-Broken λ source.
                  Ensures-ensure_bind (HasRun a) (Rest Completed) Broken _ _ _ HasRun-Broken (
                    Ensures-outside_bind (HasRun a) (Rest Completed) Broken _ _ HasRun-Broken λ _.
                      Ensures-on_rest_bind (HasRun a) (Rest Completed) Broken (HasAnalysis a) _ _
                        (λ s i. (i, refl))
                        (Ensures-outside_bind (HasAnalysis a) (Rest Completed) Broken _ _
                          HasAnalysis-Broken
                          λ previous.
                            Ensures-ensure_bind (HasAnalysis a) (Rest Completed) Broken _ _ _
                              HasAnalysis-Broken
                              (Ensures-outside_bind (HasAnalysis a) (Rest Completed) Broken _ _
                                HasAnalysis-Broken
                                λ applied.
                                  Ensures-ensure_bind (HasAnalysis a) (Rest Completed) Broken _ _ _
                                    HasAnalysis-Broken
                                    (Ensures-outside_bind (HasAnalysis a) (Rest Completed) Broken _
                                      _ HasAnalysis-Broken
                                      λ _.
                                        Ensures-outside_bind (HasAnalysis a) (Rest Completed) Broken
                                          _ _ HasAnalysis-Broken
                                          λ t.
                                            Ensures-on_rest_bind (HasAnalysis a) (Rest Completed)
                                              Broken Completed _ _
                                              (λ s i.
                                                let (((x, r, b, p), d), n) = i in
                                                (x, (refl, b, (t, refl), d, n, p)))
                                              (Ensures-pure (Rest Completed) (Rest Broken)
                                                previous))))))

  -- The handler marks the slot as failed, and raises.
  slot_failed-IsBroken :
      (before : List J) (e : Exception)
      → Ensures (λ st. Broken st.1) (slot_failed c before e) (Rest Completed) (Rest Broken)
  unfolding slot_failed
  slot_failed-IsBroken before e =
      Ensures-outside_bind Broken (Rest Completed) Broken _ _ (λ s i. i)
        λ t.
          Ensures-on_rest_bind Broken (Rest Completed) Broken Broken _ _ (λ s i. (i.0, inl refl))
            (Ensures-outside_bind Broken (Rest Completed) Broken _ _ (λ s i. i)
              λ partial.
                Ensures-on_rest_bind Broken (Rest Completed) Broken Broken _ _ (λ s i. i)
                  (Ensures-raise (Rest Completed) (Rest Broken) e))

  catch-IsComplete :
      (h : Exception → Work c (Snapshot J)) (o : Outcome Exception (W × Slot J A) (Snapshot J))
      → ((e : Exception) → Ensures (λ st. Broken st.1) (h e) (Rest Completed) (Rest Broken))
      → After (Rest Completed) (Rest Broken) o
      → After (Rest Completed) (Rest Broken) (catch c h o)
  unfolding Ensures
  catch-IsComplete h (returned x s) k q = q
  catch-IsComplete h (raised e s) k q = elim (Bool-cases (is_exception e)) [
    | inl handled ↦ rw handled (k e s q)
    | inr passed ↦ rw passed q
  ]

  guarded_body-IsComplete :
      (frozen : J) (initial : Snapshot J) (before : List J)
      → Ensures
          (λ st. Begun a st.1)
          (guarded_body c frozen initial a before)
          (Rest Completed)
          (Rest Broken)
  unfolding guarded_body Ensures
  guarded_body-IsComplete frozen initial before s i =
      catch-IsComplete (slot_failed c before) (slot_body c frozen initial a before s)
        (slot_failed-IsBroken before) (slot_body-IsComplete frozen initial before s i)

  -- What is left of a planned slot by a round that raises.
  abbrev Stopped : Slot J A → Slot J A → Type 0
  Stopped s0 s = (s ≡ s0) ⊎ Broken s

  -- A round completes the slot when it returns; when it raises, the slot is as it was planned, or it
  -- is failed or, after an interrupt, still running.
  pub run_slot-IsComplete :
      (frozen binary : J) (initial previous : Snapshot J) (w : W) (s : Slot J A)
      → s.assignment ≡ a
      → s.partial_run_dirs ≡ none
      → After
          (λ _ st. Completed st.1)
          (λ _ st. Stopped s st.1)
          (run_slot c frozen binary initial previous a (w, s))
  unfolding run_slot Ensures
  run_slot-IsComplete frozen binary initial previous w s e p =
      let I = λ (t : Slot J A). t ≡ s in
      let R = Stopped s in
      let round =
        Ensures-outside_bind I (Rest Completed) R _ _ (λ t i. inl i)
          λ source.
            Ensures-ensure_bind I (Rest Completed) R _ _ _ (λ t i. inl i)
              (Ensures-outside_bind I (Rest Completed) R _ _ (λ t i. inl i)
                λ digest.
                  Ensures-ensure_bind I (Rest Completed) R _ _ _ (λ t i. inl i)
                    (Ensures-outside_bind I (Rest Completed) R _ _ (λ t i. inl i)
                      λ current.
                        Ensures-ensure_bind I (Rest Completed) R _ _ _ (λ t i. inl i)
                          (Ensures-outside_bind I (Rest Completed) R _ _ (λ t i. inl i)
                            λ time.
                              Ensures-on_rest_bind I (Rest Completed) R (Begun a) _ _
                                (λ t i. (rw i e, refl, (time, refl), rw i p))
                                (Ensures-outside_bind (Begun a) (Rest Completed) R _ _
                                  (λ t i. inr (Begun-Broken t i))
                                  λ _.
                                    Ensures-outside_bind (Begun a) (Rest Completed) R _ _
                                      (λ t i. inr (Begun-Broken t i))
                                      λ before.
                                        Ensures-weaken Completed Broken R (Begun a) _ (λ t i. inr i)
                                          (guarded_body-IsComplete frozen initial before))))) in
      round (w, s) refl
