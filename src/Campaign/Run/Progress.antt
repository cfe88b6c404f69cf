-- ===== src/Campaign/Run/Progress.antt =====
-- How far `Campaign.run` (hack/run_live_campaign.py) gets, and what it records.
use predictive_hpa.Prelude.{◌≡◌, ◌⊎◌, inl, inr, refl, ap, List, [], ◌∷◌, map, All}
use predictive_hpa.Prelude.Actions.{
  Outcome, returned, raised, Action, After, Ensures, Ensures-raise, Ensures-bind, Ensures-outside,
  Rest, raise, Ensures-weaken, Ensures-outside_bind,
}
use predictive_hpa.Campaign.Slot.{Exception, SlotStatus, Slot}
use predictive_hpa.Campaign.Calls.{Calls, Snapshot}
use predictive_hpa.Campaign.Attempt.{run_slot}
use predictive_hpa.Campaign.Attempt.Complete.{IsComplete, IsBroken, run_slot-IsComplete}
use predictive_hpa.Campaign.Run.{
  run_slots, with_slot, keep_slot, campaign_body, try_block, close_private, planned,
}

module _ {W J A : Type 0} (c : Calls W J A) where
  -- Every slot of the plan is complete.
  abbrev pub Done : List A → List (Slot J A) → Type 0
  Done plan ss = (map (λ s. s.assignment) ss ≡ plan) × All IsComplete ss

  -- Some slots are complete, the next one satisfies `P`, and those after it are as planned.
  abbrev pub Cut : (A → Slot J A → Type 0) → List A → List (Slot J A) → Type 0
  Cut P (a ∷ rest) (s ∷ ss) =
      (s.assignment ≡ a) × ((IsComplete s × Cut P rest ss) ⊎ (P a s × (ss ≡ map (planned c) rest)))
  Cut P _ _ = ⊥

  abbrev pub Progress : (A → Slot J A → Type 0) → List A → List (Slot J A) → Type 0
  Progress P plan ss = Done plan ss ⊎ Cut P plan ss

  -- The slot at which the loop ends, before and after the clean-up.
  abbrev pub Interrupted : A → Slot J A → Type 0
  Interrupted a s = (s ≡ planned c a) ⊎ IsBroken s

  abbrev pub Ended : A → Slot J A → Type 0
  Ended a s = (s ≡ planned c a) ⊎ (s.status ≡ SlotStatus.failed)

  module _ (frozen binary : J) (initial : Snapshot J) where
    keep_slot-Done :
        (a : A) (rest : List A) (s : Slot J A)
        (o : Outcome Exception (W × List (Slot J A)) (Snapshot J))
        → s.assignment ≡ a
        → IsComplete s
        → After (Rest (Done rest)) (Rest (Cut Interrupted rest)) o
        → After (Rest (Done (a ∷ rest))) (Rest (Cut Interrupted (a ∷ rest))) (keep_slot c s o)
    keep_slot-Done a rest s (returned x (w, ss)) e h (m, al) = (rw (e, m), (h, al))
    keep_slot-Done a rest s (raised x (w, ss)) e h k = (e, inl (h, k))

    with_slot-Done :
        (a : A) (rest : List A)
        (next : Snapshot J → W → Outcome Exception (W × List (Slot J A)) (Snapshot J))
        (o : Outcome Exception (W × Slot J A) (Snapshot J))
        → After
            (λ _ st. (st.1.assignment ≡ a) × IsComplete st.1)
            (λ _ st. (st.1 ≡ planned c a) ⊎ ((st.1.assignment ≡ a) × IsBroken st.1))
            o
        → ((current : Snapshot J) (w : W)
            → After (Rest (Done rest)) (Rest (Cut Interrupted rest)) (next current w))
        → After
            (Rest (Done (a ∷ rest)))
            (Rest (Cut Interrupted (a ∷ rest)))
            (with_slot c next (map (planned c) rest) o)
    with_slot-Done a rest next (returned current (w, s)) (e, h) k =
        keep_slot-Done a rest s (next current w) e h (k current w)
    with_slot-Done a rest next (raised x (w, s)) (inl h) k =
        (ap (λ s. s.assignment) h, inr (inl h, refl))
    with_slot-Done a rest next (raised x (w, s)) (inr (e, b)) k = (e, inr (inr b, refl))

    run_slots-Done :
        (previous : Snapshot J) (plan : List A) (w : W)
        → After
            (Rest (Done plan))
            (Rest (Cut Interrupted plan))
            (run_slots c frozen binary initial previous (map (planned c) plan) w)
    unfolding run_slots
    run_slots-Done previous [] w = (refl, tt)
    run_slots-Done previous (a ∷ rest) w =
        with_slot-Done a rest _ (run_slot c frozen binary initial previous a (w, planned c a))
          (run_slot-IsComplete c a frozen binary initial previous w (planned c a) refl refl)
          λ current w'. run_slots-Done current rest w'

  planned-Progress : (plan : List A) → Progress Interrupted plan (map (planned c) plan)
  planned-Progress [] = inl (refl, tt)
  planned-Progress (a ∷ rest) = inr (refl, inr (inl refl, refl))

  abbrev pub Halted : List A → List (Slot J A) → Type 0
  Halted = Progress Interrupted

  module _ (plan : List A) where
    abbrev pub Untouched : List (Slot J A) → Type 0
    Untouched ss = ss ≡ map (planned c) plan

    Untouched-Halted : (ss : List (Slot J A)) → Untouched ss → Halted plan ss
    Untouched-Halted ss h = rw h (planned-Progress plan)

    slots_lem :
        (frozen binary : J) (initial : Snapshot J)
        → Ensures
            (λ st. Untouched st.1)
            (λ (w, ss). run_slots c frozen binary initial initial ss w)
            (Rest (Done plan))
            (Rest (Halted plan))
    unfolding Ensures
    slots_lem frozen binary initial =
        Ensures-weaken (Done plan) (Cut Interrupted plan) (Halted plan) Untouched _ (λ ss. inr)
          λ (w, ss) h. rw h (run_slots-Done frozen binary initial initial plan w)

    campaign_body-Done :
        (frozen : J) (initial : Snapshot J)
        → Ensures
            (λ st. Untouched st.1)
            (campaign_body c frozen initial)
            (Rest (Done plan))
            (Rest (Halted plan))
    unfolding campaign_body
    campaign_body-Done frozen initial =
        Ensures-outside_bind Untouched (Rest (Done plan)) (Halted plan) _ _ Untouched-Halted λ _.
          Ensures-outside_bind Untouched (Rest (Done plan)) (Halted plan) _ _ Untouched-Halted
            λ binary.
              Ensures-outside_bind Untouched (Rest (Done plan)) (Halted plan) _ _ Untouched-Halted
                λ receipt.
                  Ensures-outside_bind Untouched (Rest (Done plan)) (Halted plan) _ _
                    Untouched-Halted
                    λ _.
                      Ensures-outside_bind Untouched (Rest (Done plan)) (Halted plan) _ _
                        Untouched-Halted
                        λ _.
                          Ensures-bind (Rest (Done plan)) (Rest (Done plan)) (Rest (Halted plan))
                            (λ st. Untouched st.1) _ _ (slots_lem frozen binary initial)
                            λ previous. Ensures-outside (Done plan) (Halted plan) _ (λ ss. inl)

    close_private-Done :
        (o : Outcome Exception (W × List (Slot J A)) (Unit {0}))
        → After (Rest (Done plan)) (Rest (Halted plan)) o
        → After (Rest (Done plan)) (Rest (Halted plan)) (close_private c o)
    unfolding Ensures
    close_private-Done (returned x st) h =
        Ensures-outside (Done plan) (Halted plan) c.remove_private (λ ss. inl) st h
    close_private-Done (raised e st) h =
        Ensures-outside_bind (Halted plan) (Rest (Done plan)) (Halted plan) c.remove_private
          (λ _. raise e) (λ ss h. h)
          (λ _. Ensures-raise {A = Unit {0}} (Rest (Done plan)) (Rest (Halted plan)) e) st h

    closed-Done :
        (m : Action Exception (W × List (Slot J A)) (Unit {0}))
        → Ensures (λ st. Untouched st.1) m (Rest (Done plan)) (Rest (Halted plan))
        → Ensures
            (λ st. Untouched st.1)
            (λ s. close_private c (m s))
            (Rest (Done plan))
            (Rest (Halted plan))
    unfolding Ensures
    closed-Done m h st i = close_private-Done (m st) (h st i)

    pub try_block-Done :
        Ensures (λ st. Untouched st.1) (try_block c) (Rest (Done plan)) (Rest (Halted plan))
    unfolding try_block
    try_block-Done =
        Ensures-outside_bind Untouched (Rest (Done plan)) (Halted plan) _ _ Untouched-Halted
          λ (initial, frozen).
            Ensures-outside_bind Untouched (Rest (Done plan)) (Halted plan) _ _ Untouched-Halted
              λ _. closed-Done _ (campaign_body-Done frozen initial)
