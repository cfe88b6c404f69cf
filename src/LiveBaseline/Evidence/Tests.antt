-- ===== src/LiveBaseline/Evidence/Tests.antt =====
-- The evidence of a cold run: one state that was observed, and two reconciliations in the log, of which
-- the first began before the controller of the plan did.
use predictive_hpa.Prelude.{String, true, ◌≡◌, refl, none, List, [], ◌∷◌, ok, err}
use predictive_hpa.Prelude.Int.{ℤ, pos}
use predictive_hpa.Float.{of_ℤ}
use predictive_hpa.Json.{
  Json, null, bool, int, str, obj, Fields, fields, eq, truthy, get, get_or, item, Error,
}
use predictive_hpa.Latency.Values.{Clock, Arithmetic, epoch}
use predictive_hpa.Latency.Cycles.{Cycle, decision}
use predictive_hpa.LiveBaseline.Refusal.{refused}
use predictive_hpa.LiveBaseline.Checks.{refuse_if}
use predictive_hpa.LiveBaseline.Marker.{Actual}
use predictive_hpa.LiveBaseline.Identity.{
  check_uid, check_source, check_metadata, check_status, check_identity,
}
use predictive_hpa.LiveBaseline.States.{
  check_part, check_resource, check_target, check_state, check_states,
}
use predictive_hpa.LiveBaseline.Evidence.{check_mode, check_modes, log_start, validate_evidence}
use predictive_hpa.LiveBaseline.Evidence.Consistent.{IsConsistent, validate_evidence-IsConsistent}

abbrev clock : Clock
clock = record { timestamp = λ s. none }

-- No float is computed for a cold run.
abbrev unused : Arithmetic
unused = record { minus = λ x y. x; plus = λ x y. x; times = λ x y. x; absolute = λ x. x }

abbrev pub one_entry : String → Json → Json
one_entry k v = obj (fields ((k, v) ∷ []))

abbrev pub metadata : Json
metadata = obj (
    fields (
      ("experiment_id", str "run-1")
      ∷ ("result", one_entry "status" (str "success"))
      ∷ ("live_baseline", bool true)
      ∷ ("decision_mode", str "Hybrid")
      ∷ []))

abbrev plan : Fields
plan = fields (
    ("decision_mode", str "Hybrid")
    ∷ ("pattern", str "step")
    ∷ ("startup_mode", str "cold")
    ∷ ("controller_started_at", int (pos 100))
    ∷ [])

abbrev pub gate : Fields
gate = fields (
    ("startup_mode", str "cold")
    ∷ ("target_uid", str "d")
    ∷ ("phpa_uid", str "p")
    ∷ ("released_at", int (pos 120))
    ∷ [])

abbrev pub status : Fields
status = fields (
    ("status", str "success")
    ∷ ("owned_processes_stopped", bool true)
    ∷ ("errors", null)
    ∷ ("gate_released", bool true)
    ∷ [])

abbrev deployment : Json
deployment = one_entry "metadata" (obj (fields (("uid", str "d") ∷ ("name", str "web") ∷ [])))

abbrev autoscaler : Json
autoscaler = obj (
    fields (
      ("metadata", one_entry "uid" (str "p"))
      ∷ (
        "spec",
        obj (
            fields (
              ("decisionMode", str "Hybrid")
              ∷ (
                "scaleTargetRef",
                obj (fields (("kind", str "Deployment") ∷ ("name", str "web") ∷ [])),
              )
              ∷ [])),
      )
      ∷ []))

abbrev state : Json → Json
state target = obj (
    fields (
      ("kind", str "state")
      ∷ ("status", str "success")
      ∷ ("response", obj (fields (("deployment", target) ∷ ("phpa", autoscaler) ∷ [])))
      ∷ []))

abbrev cycle : ℤ → String → Cycle
cycle start mode = record {
  reconcile_id = null;
  started_at = int start;
  rows = (decision, one_entry "decisionMode" (str mode)) ∷ [];
}

abbrev cycles : String → List Cycle
cycles mode = cycle (pos 90) "Current" ∷ cycle (pos 105) mode ∷ []

abbrev actual : Actual
actual = record {
  scenario_start = of_ℤ (pos 121);
  load_onset = of_ℤ (pos 151);
  offered_load_end = of_ℤ (pos 332);
  observation_end = of_ℤ (pos 692);
}

accepted :
    validate_evidence clock unused
      (λ v. err Error.value_error)
      metadata
      plan
      gate
      status
      (state deployment ∷ [])
      (cycles "Hybrid")
      actual
    ≡ ok (of_ℤ (pos 100))
unfolding validate_evidence check_identity check_metadata check_status check_uid check_source
    check_states check_state check_resource check_part check_target log_start check_modes check_mode
    refuse_if get get_or item eq truthy epoch
accepted = refl

-- A cycle of another mode, after the start.
other_mode :
    validate_evidence clock unused
      (λ v. err Error.value_error)
      metadata
      plan
      gate
      status
      (state deployment ∷ [])
      (cycles "Predictive")
      actual
    ≡ err (refused "Controller decision mode disagrees with plan")
unfolding validate_evidence check_identity check_metadata check_status check_uid check_source
    check_states check_state check_resource check_part check_target log_start check_modes check_mode
    refuse_if get get_or item eq truthy epoch
other_mode = refl

-- A deployment that is not the gate's.
other_deployment :
    validate_evidence clock unused
      (λ v. err Error.value_error)
      metadata
      plan
      gate
      status
      (state (one_entry "metadata" (one_entry "uid" (str "e"))) ∷ [])
      (cycles "Hybrid")
      actual
    ≡ err (refused "deployment UID disagrees with gate")
unfolding validate_evidence check_identity check_metadata check_status check_uid check_source
    check_states check_state check_resource check_part check_target log_start check_modes check_mode
    refuse_if get get_or item eq truthy epoch
other_deployment = refl

validate_evidence-IsConsistent_example :
    IsConsistent clock plan gate (state deployment ∷ []) (cycles "Hybrid") actual (of_ℤ (pos 100))
validate_evidence-IsConsistent_example =
    validate_evidence-IsConsistent clock unused (λ v. err Error.value_error) metadata plan gate
      status (state deployment ∷ []) (cycles "Hybrid") actual (of_ℤ (pos 100)) accepted
