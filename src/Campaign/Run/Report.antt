-- ===== src/Campaign/Run/Report.antt =====
-- The exit code of `Campaign.run` (hack/run_live_campaign.py), and the status that it records.
use mathlib.Core.Path.{subst}
use predictive_hpa.Prelude.{
  ℕ, ◌≡◌, ◌⊎◌, inl, inr, refl, ap, sym, ◌∙◌, Option, none, some, List, [], ◌∷◌, map, Bool-cases,
  All,
}
use predictive_hpa.Prelude.Actions.{
  Outcome, returned, raised, Action, outside, After, Ensures, Rest, Ensures-raise, Ensures-bind,
  Ensures-outside, Ensures-outside_bind, Ensures-on_rest_bind,
}
use predictive_hpa.Campaign.Slot.{
  Exception, is_handled, is_cleanup_error, Slot, CampaignStatus, Status,
}
use predictive_hpa.Campaign.Calls.{Calls, Receipt}
use predictive_hpa.Campaign.Attempt.Complete.{IsComplete}
use predictive_hpa.Campaign.Run.{
  try_block, planned, run, settle, finish, stop_owned, caught_stop, exit_code, fail_running,
  not_running, conclude, create_output, started, status_of,
}
use predictive_hpa.Campaign.Run.Progress.{
  Done, Cut, Progress, Interrupted, Ended, try_block-Done, Halted,
}

module _ {J A : Type 0} where
  -- What the clean-up may find: the loop's verdict, or its own failure.
  abbrev pub IsFailure : Status J A → Type 0
  IsFailure st =
      (st.status ≡ CampaignStatus.failed)
      × (((e : Exception) × (st.error ≡ some e)) ⊎ ((e : Exception) × (st.cleanup_error ≡ some e)))

  abbrev pub IsSuccess : Status J A → Type 0
  IsSuccess st =
      (st.status ≡ CampaignStatus.success) × (st.error ≡ none) × (st.cleanup_error ≡ none)

module _ {W J A : Type 0} (c : Calls W J A) (plan : List A) where
  abbrev Verdict : Status J A → Type 0
  Verdict st = (IsSuccess st × Done c plan st.slots) ⊎ IsFailure st

  abbrev Before : Status J A → Type 0
  Before st = Progress c (Interrupted c) plan st.slots × (st.cleanup_error ≡ none) × Verdict st

  abbrev Stopped : Status J A → Type 0
  Stopped st = Progress c (Interrupted c) plan st.slots × Verdict st

  abbrev Settled : Status J A → Type 0
  Settled st = Progress c (Ended c) plan st.slots × Verdict st

  abbrev Any : Status J A → Type 0
  Any st = Unit

  -- The exit code is 0 for a success and 3 for a failure.
  abbrev pub Reported : ℕ → Status J A → Type 0
  Reported code st =
      Progress c (Ended c) plan st.slots
      × (((code ≡ 0) × IsSuccess st × Done c plan st.slots) ⊎ ((code ≡ 3) × IsFailure st))

  complete_kept : (s : Slot J A) → IsComplete s → fail_running c s ≡ s
  complete_kept s h =
      let same : not_running c s.status ≡ s.status = rw h.0 refl in
      ap (λ x. record s { status = x }) same

  done_kept : (ss : List (Slot J A)) → All IsComplete ss → map (fail_running c) ss ≡ ss
  done_kept [] h = refl
  done_kept (s ∷ ss) h = rw (complete_kept s h.0, done_kept ss h.1) refl

  planned_kept :
      (slots : List A) → map (fail_running c) (map (planned c) slots) ≡ map (planned c) slots
  planned_kept [] = refl
  planned_kept (a ∷ rest) = ap (λ ss. planned c a ∷ ss) (planned_kept rest)

  Interrupted-Ended : (a : A) (s : Slot J A) → Interrupted c a s → Ended c a (fail_running c s)
  Interrupted-Ended a s (inl h) = inl (ap (fail_running c) h)
  Interrupted-Ended a s (inr (inl h)) = inr (ap (not_running c) h)
  Interrupted-Ended a s (inr (inr h)) = inr (ap (not_running c) h)

  Cut-Ended :
      (slots : List A) (ss : List (Slot J A))
      → Cut c (Interrupted c) slots ss
      → Cut c (Ended c) slots (map (fail_running c) ss)
  Cut-Ended [] ss h = absurd h
  Cut-Ended (a ∷ rest) [] h = absurd h
  Cut-Ended (a ∷ rest) (s ∷ ss) (e, inl (complete, h)) =
      (e, inl (subst IsComplete (sym (complete_kept s complete)) complete, Cut-Ended rest ss h))
  Cut-Ended (a ∷ rest) (s ∷ ss) (e, inr (broken, h)) =
      (e, inr (Interrupted-Ended a s broken, ap (map (fail_running c)) h ∙ planned_kept rest))

  Done-Ended : (ss : List (Slot J A)) → Done c plan ss → Done c plan (map (fail_running c) ss)
  Done-Ended ss d = subst (Done c plan) (sym (done_kept ss d.1)) d

  cleaned : Status J A → Status J A
  cleaned st = record st { slots = map (fail_running c) st.slots }

  cleaned-Settled : (st : Status J A) → Stopped st → Settled (cleaned st)
  unfolding cleaned
  cleaned-Settled st (p, v) = (
    elim p [ inl d ↦ inl (Done-Ended st.slots d) | inr h ↦ inr (Cut-Ended plan st.slots h) ],
    elim v [ inl (s, d) ↦ inl (s, Done-Ended st.slots d) | inr f ↦ inr f ],
  )

  caught_stop-Stopped :
      (st : Status J A) (o : Outcome Exception W (Unit {0}))
      → Before st
      → After (Rest Stopped) (Rest Any) (caught_stop c st o)
  caught_stop-Stopped st (returned x w) (p, n, v) = (p, v)
  caught_stop-Stopped st (raised e w) (p, n, v) = elim (Bool-cases (is_cleanup_error e)) [
    | inl caught ↦ rw caught (p, inr (refl, inr (e, refl)))
    | inr other ↦ rw other tt
  ]

  stop_owned-Stopped : Ensures (λ st. Before st.1) (stop_owned c) (Rest Stopped) (Rest Any)
  unfolding Ensures stop_owned
  stop_owned-Stopped (w, st) b = caught_stop-Stopped st (c.stop_active w) b

  abbrev Concluded : ℕ → W × Status J A → Type 0
  Concluded code st = Reported code st.1

  conclude-Concluded :
      (pending : Option Exception)
      → Ensures (λ st. Settled st.1) (conclude c pending) Concluded (Rest Any)
  unfolding Ensures
  conclude-Concluded none (w, st) (p, inl (s, d)) = (p, inl (ap (exit_code c) s.0, s, d))
  conclude-Concluded none (w, st) (p, inr f) = (p, inr (ap (exit_code c) f.0, f))
  conclude-Concluded (some e) s h = tt

  written-Settled :
      Ensures
        (λ st. Settled st.1)
        (λ (w, st). outside (c.write (Receipt.campaign_status st)) (w, st))
        (Rest Settled)
        (Rest Any)
  unfolding Ensures
  written-Settled (w, st) h =
      Ensures-outside Settled Any (c.write (Receipt.campaign_status st)) (λ st _. tt) (w, st) h

  finish-Concluded :
      (pending : Option Exception)
      → Ensures (λ st. Before st.1) (finish c pending) Concluded (Rest Any)
  unfolding finish cleaned
  finish-Concluded pending =
      Ensures-bind (Rest Stopped) Concluded (Rest Any) (λ st. Before st.1) _ _ stop_owned-Stopped
        λ _. Ensures-on_rest_bind Stopped Concluded Any Settled cleaned _ cleaned-Settled (
          Ensures-outside_bind Settled Concluded Any _ _ (λ st h. tt)
            λ t.
              Ensures-on_rest_bind Settled Concluded Any Settled _ _ (λ st h. h)
                (Ensures-bind (Rest Settled) Concluded (Rest Any) (λ st. Settled st.1) _ _
                  written-Settled λ _. conclude-Concluded pending))

  After-Any :
      {B : Type 0} (o : Outcome Exception (W × Status J A) B) → After (Rest Any) (Rest Any) o
  After-Any (returned b s) = tt
  After-Any (raised e s) = tt

  Ensures-Any :
      {B : Type 0} (m : Action Exception (W × Status J A) B)
      → Ensures (λ st. Any st.1) m (Rest Any) (Rest Any)
  unfolding Ensures
  Ensures-Any m s h = After-Any (m s)

  -- With an exception that is not handled, no exit code is returned.
  finish_raises :
      (e : Exception) → Ensures (λ st. Any st.1) (finish c (some e)) Concluded (Rest Any)
  unfolding finish
  finish_raises e =
      Ensures-bind (Rest Any) Concluded (Rest Any) (λ st. Any st.1) _ _ (Ensures-Any _)
        λ _.
          Ensures-bind (Rest Any) Concluded (Rest Any) (λ st. Any st.1) _ _ (Ensures-Any _)
            λ _.
              Ensures-bind (Rest Any) Concluded (Rest Any) (λ st. Any st.1) _ _ (Ensures-Any _)
                λ _.
                  Ensures-bind (Rest Any) Concluded (Rest Any) (λ st. Any st.1) _ _ (Ensures-Any _)
                    λ _.
                      Ensures-bind (Rest Any) Concluded (Rest Any) (λ st. Any st.1) _ _
                        (Ensures-Any _) λ _. Ensures-raise Concluded (Rest Any) e

  settle-Concluded :
      (o : Outcome Exception (W × List (Slot J A)) (Unit {0}))
      → After (Rest (Done c plan)) (Rest (Halted c plan)) o
      → After Concluded (Rest Any) (settle c o)
  unfolding settle Ensures
  settle-Concluded (returned x (w, ss)) d =
      finish-Concluded none (w, status_of c ss CampaignStatus.success none)
        (inl d, refl, inl ((refl, refl, refl), d))
  settle-Concluded (raised e (w, ss)) h = elim (Bool-cases (is_handled e)) [
    | inl handled ↦ rw handled (
        finish-Concluded none (w, status_of c ss CampaignStatus.failed (some e))
          (h, refl, inr (refl, inl (e, refl))))
    | inr other ↦ rw other (finish_raises e (w, status_of c ss CampaignStatus.in_progress none) tt)
  ]

  started-Concluded :
      (o : Outcome Exception W (Unit {0}))
      → After Concluded (Rest Any) (started c (map (planned c) plan) o)
  unfolding started Ensures
  started-Concluded (returned x w) =
      settle-Concluded (try_block c (w, map (planned c) plan))
        (try_block-Done c plan (w, map (planned c) plan) refl)
  started-Concluded (raised e w) = tt

-- When a campaign returns an exit code, it is 0 or 3. The slots follow the plan: some are complete,
-- with a run directory, an analysis and their times; the next one failed or was not started; those
-- after it are as planned, and none is left running. With 0 every slot is complete, the recorded
-- status is a success and there is no error; with 3 it is a failure, with the error of the loop or of
-- the clean-up.
pub run-Reported :
    {W J A : Type 0} (c : Calls W J A) (plan : List A) (w w' : W) (code : ℕ) (st : Status J A)
    → run c plan w ≡ returned code (w', st)
    → Reported c plan code st
unfolding run
run-Reported c plan w w' code st h =
    subst (After (Concluded c plan) (Rest (Any c plan))) h
      (started-Concluded c plan (create_output c (map (planned c) plan) w))
