-- ===== src/Campaign/Attempt/Handled.antt =====
-- A world whose calls raise only what `Campaign.run` (hack/run_live_campaign.py) handles, and the round
-- of its loop there.
use predictive_hpa.Prelude.{◌≡◌, refl, Bool, true, some, List, [], ◌∷◌, Bool-cases, inl, inr}
use predictive_hpa.Prelude.Actions.{
  Outcome, returned, raised, Action, ◌>>=◌, ensure, outside, on_rest,
}
use predictive_hpa.Prelude.Raises.{
  Raised, OnlyRaises, OnlyRaises-bind, OnlyRaises-pure, OnlyRaises-raise, OnlyRaises-ensure,
  OnlyRaises-outside, OnlyRaises-on_rest,
}
use predictive_hpa.Campaign.Slot.{
  Exception, is_handled, is_exception, is_cleanup_error, Slot, Status,
}
use predictive_hpa.Campaign.Calls.{Calls, Snapshot, Previous, Receipt, Directory}
use predictive_hpa.Campaign.Attempt.{
  new_runs, now, the_only, slot_body, slot_failed, catch, guarded_body, run_slot,
}

-- Exceptions of the tuple that `run` handles, of the clean-up's, and none at all.
abbrev pub Handled : Exception → Type 0
Handled e = is_handled e ≡ true

abbrev pub Cleanup : Exception → Type 0
Cleanup e = is_cleanup_error e ≡ true

abbrev pub Never : Exception → Type 0
Never e = ⊥

-- A world whose calls raise only what `run` handles, and whose directories, plan and final status can
-- be written.
pub record IsHandling {W J A : Type 0} (c : Calls W J A) : Type 0 where
  pub mkdir : (d : Directory) → OnlyRaises Never (c.mkdir d)
  pub write_plan : (st : Status J A) → OnlyRaises Never (c.write (Receipt.campaign_plan st))
  pub write_status : (st : Status J A) → OnlyRaises Never (c.write (Receipt.campaign_status st))
  pub stop_active : OnlyRaises Cleanup c.stop_active
  pub write : (r : Receipt J A) → OnlyRaises Handled (c.write r)
  pub current_context : OnlyRaises Handled c.current_context
  pub kind_clusters : OnlyRaises Handled c.kind_clusters
  pub snapshot : OnlyRaises Handled c.snapshot
  pub expected_phpa :
      (read : Action Exception W (Previous J))
      → c.expected_phpa_receipt ≡ some read
      → OnlyRaises Handled read
  pub source_identity : OnlyRaises Handled c.source_identity
  pub make_private : OnlyRaises Handled c.make_private
  pub remove_private : OnlyRaises Handled c.remove_private
  pub build_controller : OnlyRaises Handled c.build_controller
  pub digest_binary : OnlyRaises Handled c.digest_binary
  pub build_extra_binaries : OnlyRaises Handled c.build_extra_binaries
  pub configure_slot : (a : A) → OnlyRaises Handled (c.configure_slot a)
  pub benchmark : (a : A) → OnlyRaises Handled (c.benchmark a)
  pub list_runs : OnlyRaises Handled c.list_runs
  pub analyze_slot : (a : A) (run : J) → OnlyRaises Handled (c.analyze_slot a run)
  pub applied_phpa : (run : J) → OnlyRaises Handled (c.applied_phpa run)

module _ {W J A : Type 0} (c : Calls W J A) (h : IsHandling c) where
  -- A call, a test and a change of the rest, in front of the rest of a body.
  module _ {T B : Type 0} where
    pub call :
        {C : Type 0} (m : Action Exception W C) (f : C → Action Exception (W × T) B)
        → OnlyRaises Handled m
        → ((x : C) → OnlyRaises Handled (f x))
        → OnlyRaises Handled (outside m >>= f)
    call m f o k = OnlyRaises-bind Handled (outside m) f (OnlyRaises-outside W T Handled m o) k

    pub test :
        (b : Bool) (f : Unit {0} → Action Exception (W × T) B)
        → ((x : Unit {0}) → OnlyRaises Handled (f x))
        → OnlyRaises Handled (ensure b Exception.value_error >>= f)
    test b f k =
        OnlyRaises-bind Handled _ f (OnlyRaises-ensure (W × T) Handled b Exception.value_error refl)
          k

    pub change :
        (g : T → T) (f : Unit {0} → Action Exception (W × T) B)
        → ((x : Unit {0}) → OnlyRaises Handled (f x))
        → OnlyRaises Handled (on_rest g >>= f)
    change g f k = OnlyRaises-bind Handled (on_rest g) f (OnlyRaises-on_rest W T Handled g) k

  pub now-OnlyRaises : (P : Exception → Type 0) → OnlyRaises P (now c)
  unfolding OnlyRaises
  now-OnlyRaises P w = tt

  new_runs-OnlyRaises : (before : List J) → OnlyRaises Handled (new_runs c before)
  new_runs-OnlyRaises before =
      OnlyRaises-bind Handled c.list_runs _ h.list_runs λ runs. OnlyRaises-pure W Handled _

  the_only-OnlyRaises : (created : List J) → OnlyRaises Handled (the_only c created)
  unfolding OnlyRaises
  the_only-OnlyRaises [] s = refl
  the_only-OnlyRaises (d ∷ []) s = tt
  the_only-OnlyRaises (d ∷ x ∷ xs) s = refl

  module _ (frozen : J) (initial : Snapshot J) (a : A) (before : List J) where
    slot_body-OnlyRaises : OnlyRaises Handled (slot_body c frozen initial a before)
    unfolding slot_body
    slot_body-OnlyRaises = call _ _ (h.configure_slot a) λ _. call _ _ (h.benchmark a) λ _.
        call _ _ (new_runs-OnlyRaises before) λ created.
          OnlyRaises-bind Handled (the_only c created) _ (the_only-OnlyRaises created) λ run.
            change _ _ λ _. call _ _ h.source_identity λ source. test _ _ λ _.
              call _ _ (h.analyze_slot a run) λ _. change _ _ λ _. call _ _ h.snapshot λ previous.
                test _ _ λ _. call _ _ (h.applied_phpa run) λ applied. test _ _ λ _.
                  call _ _ (h.write (Receipt.slot_after a previous)) λ _.
                    call _ _ (now-OnlyRaises Handled)
                      λ t. change _ _ λ _. OnlyRaises-pure (W × Slot J A) Handled previous

    slot_failed-OnlyRaises :
        (e : Exception) → Handled e → OnlyRaises Handled (slot_failed c before e)
    unfolding slot_failed
    slot_failed-OnlyRaises e p = call _ _ (now-OnlyRaises Handled) λ t. change _ _ λ _.
        call _ _ (new_runs-OnlyRaises before)
          λ partial. change _ _ λ _. OnlyRaises-raise (W × Slot J A) Handled (Snapshot J) e p

    catch-Raised :
        (o : Outcome Exception (W × Slot J A) (Snapshot J))
        → Raised Handled o
        → Raised Handled (catch c (slot_failed c before) o)
    unfolding OnlyRaises
    catch-Raised (returned x s) p = tt
    catch-Raised (raised e s) p = elim (Bool-cases (is_exception e)) [
      | inl caught ↦ rw caught (slot_failed-OnlyRaises e p s)
      | inr passed ↦ rw passed p
    ]

    guarded_body-OnlyRaises : OnlyRaises Handled (guarded_body c frozen initial a before)
    unfolding guarded_body OnlyRaises
    guarded_body-OnlyRaises s =
        catch-Raised (slot_body c frozen initial a before s) (slot_body-OnlyRaises s)

  pub run_slot-OnlyRaises :
      (frozen binary : J) (initial previous : Snapshot J) (a : A)
      → OnlyRaises Handled (run_slot c frozen binary initial previous a)
  unfolding run_slot
  run_slot-OnlyRaises frozen binary initial previous a = call _ _ h.source_identity λ source.
      test _ _ λ _. call _ _ h.digest_binary λ digest. test _ _ λ _. call _ _ h.snapshot λ current.
        test _ _ λ _. call _ _ (now-OnlyRaises Handled) λ t. change _ _ λ _.
          call _ _ (h.write (Receipt.slot_before a current))
            λ _. call _ _ h.list_runs λ before. guarded_body-OnlyRaises frozen initial a before
