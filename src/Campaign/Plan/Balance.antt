-- ===== src/Campaign/Plan/Balance.antt =====
-- How the plans of hack/run_live_campaign.py and hack/run_cadence_campaign.py balance the treatments,
-- and what a campaign that succeeds has measured.
use predictive_hpa.Prelude.{
  ℕ, zero, suc, ◌+◌, ◌-◌, ◌*◌, ◌%◌, ◌<◌, ◌≡◌, ◌∙◌, refl, ap, sym, inl, inr, arith, Bool, true,
  false, ◌&&◌, ◌==◌, Option, some, List, [], ◌∷◌, map, count_if, if◌then◌else◌, All,
}
use predictive_hpa.Prelude.Actions.{returned}
use predictive_hpa.Campaign.Plan.{
  Mode, Controller, Assignment, assignment, live_plan, CadenceAssignment, enumerate_from,
  cadence_plan,
}
use predictive_hpa.Campaign.Slot.{Status}
use predictive_hpa.Campaign.Calls.{Calls}
use predictive_hpa.Campaign.Run.{run}
use predictive_hpa.Campaign.Run.Progress.{Done}
use predictive_hpa.Campaign.Run.Report.{run-Reported}
use predictive_hpa.Campaign.Attempt.Complete.{IsComplete}

abbrev pub same_mode : Mode → Option (Mode × Controller) → Bool
same_mode Mode.current (some (Mode.current, _)) = true
same_mode Mode.predictive (some (Mode.predictive, _)) = true
same_mode Mode.hybrid (some (Mode.hybrid, _)) = true
same_mode _ _ = false

-- A slot of mode m at the position k of its repeat, and a slot of mode m in the repeat k.
abbrev pub at_position : Mode → ℕ → Assignment → Bool
at_position m k a = same_mode m a.mode && (a.slot - 1) % 3 == k

abbrev pub in_repeat : Mode → ℕ → Assignment → Bool
in_repeat m k a = same_mode m a.mode && a.repeat == suc k

-- In the live baseline every mode stands once in each repeat and once at each position.
live_plan_balanced :
    (m : Mode) (k : ℕ)
    → k < 3
    → (count_if (at_position m k) live_plan ≡ 1) × (count_if (in_repeat m k) live_plan ≡ 1)
unfolding live_plan assignment
live_plan_balanced Mode.current zero h = (refl, refl)
live_plan_balanced Mode.current (suc zero) h = (refl, refl)
live_plan_balanced Mode.current (suc (suc zero)) h = (refl, refl)
live_plan_balanced Mode.predictive zero h = (refl, refl)
live_plan_balanced Mode.predictive (suc zero) h = (refl, refl)
live_plan_balanced Mode.predictive (suc (suc zero)) h = (refl, refl)
live_plan_balanced Mode.hybrid zero h = (refl, refl)
live_plan_balanced Mode.hybrid (suc zero) h = (refl, refl)
live_plan_balanced Mode.hybrid (suc (suc zero)) h = (refl, refl)
live_plan_balanced m (suc (suc (suc k))) h = absurd (omega arith)

-- In the cadence pilot every pair has one slot at each cadence, both with the pair's offset.
abbrev pub in_pair : ℕ → ℕ → CadenceAssignment → Bool
in_pair k cadence a =
    (a.pair == suc k) && (a.requeue_seconds == cadence) && (a.offset_seconds == 2 + 5 * k)

cadence_plan_balanced :
    (k : ℕ)
    → k < 3
    → (count_if (in_pair k 30) cadence_plan ≡ 1) × (count_if (in_pair k 15) cadence_plan ≡ 1)
unfolding cadence_plan enumerate_from
cadence_plan_balanced zero h = (refl, refl)
cadence_plan_balanced (suc zero) h = (refl, refl)
cadence_plan_balanced (suc (suc zero)) h = (refl, refl)
cadence_plan_balanced (suc (suc (suc k))) h = absurd (omega arith)

count_if-map :
    {A B : Type 0} (p : B → Bool) (f : A → B) (xs : List A)
    → count_if p (map f xs) ≡ count_if (λ x. p (f x)) xs
count_if-map p f [] = refl
count_if-map p f (x ∷ xs) = ap (λ n. (if p (f x) then 1 else 0) + n) (count_if-map p f xs)

module _ {W J A : Type 0} (c : Calls W J A) (plan : List A) (w w' : W) (st : Status J A) where
  -- A campaign that succeeds has completed exactly the slots of its plan.
  run-Done : run c plan w ≡ returned 0 (w', st) → Done c plan st.slots
  run-Done h = elim (run-Reported c plan w w' 0 st h).1 [
    | inl (_, _, d) ↦ d
    | inr (e, _) ↦ absurd (omega (arith, e))
  ]

  count_slots :
      (p : A → Bool) (n : ℕ)
      → Done c plan st.slots
      → count_if p plan ≡ n
      → count_if (λ s. p s.assignment) st.slots ≡ n
  count_slots p n d h = sym (count_if-map p (λ s. s.assignment) st.slots) ∙ ap (count_if p) d.0 ∙ h

-- A live baseline that exits with 0 has completed every slot, and for every mode exactly one slot at
-- each of the three positions of a repeat and exactly one slot in each of the three repeats.
pub run-live_plan :
    {W J : Type 0} (c : Calls W J Assignment) (w w' : W) (st : Status J Assignment) (m : Mode)
    (k : ℕ)
    → run c live_plan w ≡ returned 0 (w', st)
    → k < 3
    → All IsComplete st.slots
      × (count_if (λ s. at_position m k s.assignment) st.slots ≡ 1)
      × (count_if (λ s. in_repeat m k s.assignment) st.slots ≡ 1)
run-live_plan c w w' st m k h b =
    let d = run-Done c live_plan w w' st h in
    let (p, r) = live_plan_balanced m k b in
    (
      d.1,
      count_slots c live_plan w w' st (at_position m k) 1 d p,
      count_slots c live_plan w w' st (in_repeat m k) 1 d r,
    )

-- A cadence pilot that exits with 0 has completed every slot, and in each of its three pairs exactly
-- one slot at 30 s and exactly one at 15 s, both with the offset of that pair.
pub run-cadence_plan :
    {W J : Type 0} (c : Calls W J CadenceAssignment) (w w' : W) (st : Status J CadenceAssignment)
    (k : ℕ)
    → run c cadence_plan w ≡ returned 0 (w', st)
    → k < 3
    → All IsComplete st.slots
      × (count_if (λ s. in_pair k 30 s.assignment) st.slots ≡ 1)
      × (count_if (λ s. in_pair k 15 s.assignment) st.slots ≡ 1)
run-cadence_plan c w w' st k h b =
    let d = run-Done c cadence_plan w w' st h in
    let (p, r) = cadence_plan_balanced k b in
    (
      d.1,
      count_slots c cadence_plan w w' st (in_pair k 30) 1 d p,
      count_slots c cadence_plan w w' st (in_pair k 15) 1 d r,
    )
