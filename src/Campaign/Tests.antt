-- ===== src/Campaign/Tests.antt =====
-- Campaigns of hack/run_live_campaign.py and hack/run_cadence_campaign.py in a world in which the
-- benchmark of a chosen slot fails, and the theorems on campaigns there.
use predictive_hpa.Prelude.{
  ℕ, suc, ◌≡◌, refl, arith, ◌==◌, Option, none, some, List, [], ◌∷◌, map, count_if, if◌then◌else◌,
  length, All, true, Bool-cases, inl, inr,
}
use predictive_hpa.Prelude.Actions.{
  Outcome, returned, raised, ◌>>=◌, update, ensure, outside, on_rest,
}
use predictive_hpa.Campaign.Slot.{Exception, is_handled, SlotStatus, Status, CampaignStatus}
use predictive_hpa.Campaign.Calls.{Calls}
use predictive_hpa.Campaign.Attempt.{run_slot, guarded_body, slot_body, slot_failed}
use predictive_hpa.Campaign.Attempt.Complete.{IsComplete}
use predictive_hpa.Campaign.Run.{
  run, started, create_output, prepare, expected_phpa, expected_from, try_block, campaign_body,
  run_slots, settle, finish, stop_owned,
}
use predictive_hpa.Campaign.Run.Report.{run-Reported, Reported}
use predictive_hpa.Prelude.Raises.{OnlyRaises}
use predictive_hpa.Campaign.Attempt.Handled.{IsHandling}
use predictive_hpa.Campaign.Run.Returns.{run-IsHandling}
use predictive_hpa.Campaign.Plan.{
  Mode, Assignment, assignment, live_plan, CadenceAssignment, enumerate_from, cadence_plan,
}
use predictive_hpa.Campaign.Plan.Balance.{
  at_position, in_repeat, in_pair, run-live_plan, run-cadence_plan,
}

-- A world with a clock, run directories and the fixture that the last benchmark applied.
record World : Type 0 where
  clock : ℕ
  runs : List ℕ
  phpa : Option ℕ

abbrev start : World
start = record { clock = 100; runs = []; phpa = none }

-- Every call succeeds, but for the benchmark that would create the run `bad`.
abbrev benchmark : ℕ → Exception → World → Outcome Exception World (Unit {0})
benchmark bad e w =
    let number = suc (length w.runs) in
    if number == bad
    then raised e w
    else returned tt (record w { runs = number ∷ w.runs; phpa = some number })

module _ {A : Type 0} (bad : ℕ) (e : Exception) where
  abbrev calls : Calls World ℕ A
  calls = record {
    same = λ a b. a == b;
    context = 1;
    cluster = 2;
    now = λ w. (w.clock, record w { clock = suc w.clock });
    mkdir = λ _ w. returned tt w;
    write = λ _ w. returned tt w;
    current_context = λ w. returned 1 w;
    kind_clusters = λ w. returned (5 ∷ 2 ∷ []) w;
    snapshot = λ w.
        returned (record { namespace_uid = 11; deployment_uid = 12; rest = 13; phpa = w.phpa }) w;
    expected_phpa_receipt = none;
    source_identity = λ w. returned 21 w;
    make_private = λ w. returned tt w;
    remove_private = λ w. returned tt w;
    build_controller = λ w. returned tt w;
    digest_binary = λ w. returned 22 w;
    build_extra_binaries = λ w. returned tt w;
    configure_slot = λ _ w. returned tt w;
    benchmark = λ _ w. benchmark bad e w;
    list_runs = λ w. returned w.runs w;
    analyze_slot = λ _ _ w. returned tt w;
    applied_phpa = λ run w. returned run w;
    stop_active = λ w. returned tt w;
  }

module _ {A : Type 0} where
  abbrev world_in : Outcome Exception (World × Status ℕ A) ℕ → World
  world_in (returned n s) = s.0
  world_in (raised e s) = s.0

  abbrev status_in : Outcome Exception (World × Status ℕ A) ℕ → Status ℕ A
  status_in (returned n s) = s.1
  status_in (raised e s) = s.1

-- The live baseline without a failure.
live_world : World
unfolding run
live_world = world_in (run (calls 0 Exception.runtime_error) live_plan start)

live_status : Status ℕ Assignment
unfolding run
live_status = status_in (run (calls 0 Exception.runtime_error) live_plan start)

live_run :
    run (calls 0 Exception.runtime_error) live_plan start ≡ returned 0 (live_world, live_status)
unfolding run started create_output prepare expected_phpa expected_from try_block campaign_body
    run_slots settle finish stop_owned run_slot guarded_body slot_body slot_failed ◌>>=◌ update
    ensure outside on_rest live_plan assignment live_world live_status
live_run = refl

run-live_plan_example :
    All IsComplete live_status.slots
    × (count_if (λ s. at_position Mode.hybrid 1 s.assignment) live_status.slots ≡ 1)
    × (count_if (λ s. in_repeat Mode.hybrid 1 s.assignment) live_status.slots ≡ 1)
run-live_plan_example =
    run-live_plan (calls 0 Exception.runtime_error) start live_world live_status Mode.hybrid 1
      live_run (omega arith)

-- The cadence pilot without a failure.
pilot_world : World
unfolding run
pilot_world = world_in (run (calls 0 Exception.runtime_error) cadence_plan start)

pilot_status : Status ℕ CadenceAssignment
unfolding run
pilot_status = status_in (run (calls 0 Exception.runtime_error) cadence_plan start)

pilot_run :
    run (calls 0 Exception.runtime_error) cadence_plan start
    ≡ returned 0 (pilot_world, pilot_status)
unfolding run started create_output prepare expected_phpa expected_from try_block campaign_body
    run_slots settle finish stop_owned run_slot guarded_body slot_body slot_failed ◌>>=◌ update
    ensure outside on_rest cadence_plan enumerate_from pilot_world pilot_status
pilot_run = refl

run-cadence_plan_example :
    All IsComplete pilot_status.slots
    × (count_if (λ s. in_pair 2 30 s.assignment) pilot_status.slots ≡ 1)
    × (count_if (λ s. in_pair 2 15 s.assignment) pilot_status.slots ≡ 1)
run-cadence_plan_example =
    run-cadence_plan (calls 0 Exception.runtime_error) start pilot_world pilot_status 2 pilot_run
      (omega arith)

-- An interrupt during the third benchmark of the cadence pilot.
broken_world : World
unfolding run
broken_world = world_in (run (calls 3 Exception.keyboard_interrupt) cadence_plan start)

broken_status : Status ℕ CadenceAssignment
unfolding run
broken_status = status_in (run (calls 3 Exception.keyboard_interrupt) cadence_plan start)

broken_run :
    run (calls 3 Exception.keyboard_interrupt) cadence_plan start
    ≡ returned 3 (broken_world, broken_status)
unfolding run started create_output prepare expected_phpa expected_from try_block campaign_body
    run_slots settle finish stop_owned run_slot guarded_body slot_body slot_failed ◌>>=◌ update
    ensure outside on_rest cadence_plan enumerate_from broken_world broken_status
broken_run = refl

run-Reported_example : Reported (calls 3 Exception.keyboard_interrupt) cadence_plan 3 broken_status
run-Reported_example =
    run-Reported (calls 3 Exception.keyboard_interrupt) cadence_plan start broken_world 3
      broken_status broken_run

-- Two slots are complete, the interrupted one failed, and three have not run.
broken_slots :
    map (λ s. s.status) broken_status.slots
    ≡ SlotStatus.success ∷ SlotStatus.success ∷ SlotStatus.failed ∷ SlotStatus.not_run
      ∷ SlotStatus.not_run ∷ SlotStatus.not_run ∷ []
unfolding run started create_output prepare expected_phpa expected_from try_block campaign_body
    run_slots settle finish stop_owned run_slot guarded_body slot_body slot_failed ◌>>=◌ update
    ensure outside on_rest cadence_plan enumerate_from broken_status
broken_slots = refl

-- An exception outside the tuple that `run` handles leaves no exit code, and the campaign in
-- progress.
unhandled :
    (w : World) × (st : Status ℕ CadenceAssignment) × (run
        (calls 3 Exception.other)
        cadence_plan
        start
      ≡ raised Exception.other (w, st))
    × (st.status ≡ CampaignStatus.in_progress)
unfolding run started create_output prepare expected_phpa expected_from try_block campaign_body
    run_slots settle finish stop_owned run_slot guarded_body slot_body slot_failed ◌>>=◌ update
    ensure outside on_rest cadence_plan enumerate_from
unhandled = (_, _, refl, refl)

-- Whatever benchmark fails and with whatever handled exception, the calls above raise no other.
calls-IsHandling :
    {A : Type 0} (bad : ℕ) (e : Exception) → is_handled e ≡ true → IsHandling {A = A} (calls bad e)
unfolding OnlyRaises
calls-IsHandling bad e h = record {
  mkdir = λ _ w. tt;
  write_plan = λ _ w. tt;
  write_status = λ _ w. tt;
  stop_active = λ w. tt;
  write = λ _ w. tt;
  current_context = λ w. tt;
  kind_clusters = λ w. tt;
  snapshot = λ w. tt;
  expected_phpa = λ _ n. cc;
  source_identity = λ w. tt;
  make_private = λ w. tt;
  remove_private = λ w. tt;
  build_controller = λ w. tt;
  digest_binary = λ w. tt;
  build_extra_binaries = λ w. tt;
  configure_slot = λ _ w. tt;
  benchmark =
      λ _ w. elim (Bool-cases (suc (length w.runs) == bad)) [ inl f ↦ rw f h | inr g ↦ rw g tt ];
  list_runs = λ w. tt;
  analyze_slot = λ _ _ w. tt;
  applied_phpa = λ _ w. tt;
}

run-IsHandling_example :
    (code : ℕ) × (s : World × Status ℕ CadenceAssignment) × (run
        (calls 3 Exception.keyboard_interrupt)
        cadence_plan
        start
      ≡ returned code s)
    × Reported (calls 3 Exception.keyboard_interrupt) cadence_plan code s.1
run-IsHandling_example =
    run-IsHandling (calls 3 Exception.keyboard_interrupt) cadence_plan start
      (calls-IsHandling 3 Exception.keyboard_interrupt refl)
