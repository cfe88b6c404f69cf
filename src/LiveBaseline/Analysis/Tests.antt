-- ===== src/LiveBaseline/Analysis/Tests.antt =====
-- A cold run with one request, one reconciliation that decided, and two observed states.
use predictive_hpa.Prelude.{
  String, true, ◌≡◌, refl, some, none, List, [], ◌∷◌, ok, err, if◌then◌else◌,
}
use predictive_hpa.Prelude.Int.{ℤ, pos, ◌+ℤ◌}
use predictive_hpa.Prelude.Texts.{contains}
use predictive_hpa.Prelude.Sorting.{sort}
use predictive_hpa.Json.{
  Json, bool, int, str, obj, Fields, fields, eq, truthy, get, get_or, item, less, Error,
}
use predictive_hpa.Latency.Values.{epoch}
use predictive_hpa.Latency.Cycles.{
  controller_cycles, structured_row, body_row, tabbed_row, row_of, read_line, add_row, add_event,
  add_if, collect, timed, split_tabs,
}
use predictive_hpa.LiveBaseline.Identity.{
  check_uid, check_source, check_metadata, check_status, check_identity,
}
use predictive_hpa.LiveBaseline.States.{
  check_part, check_resource, check_target, check_state, check_states,
}
use predictive_hpa.LiveBaseline.Completion.{
  values, number, whole, count_of, summarize, completion_evidence, summary_evidence,
}
use predictive_hpa.LiveBaseline.Checks.{refuse_if}
use predictive_hpa.LiveBaseline.Plan.{validate_plan, check_amounts, check_amount, check_cadence}
use predictive_hpa.LiveBaseline.Plan.Accepted.{IsPlan}
use predictive_hpa.LiveBaseline.Marker.{schedule}
use predictive_hpa.LiveBaseline.Evidence.{validate_evidence, log_start, check_modes, check_mode}
use predictive_hpa.LiveBaseline.Evidence.Tests.{metadata, gate, status, one_entry}
use predictive_hpa.LiveBaseline.Business.{
  business_evidence, points_of, read_points, read_point, check_time, check_point, check_tags,
}
use predictive_hpa.LiveBaseline.Business.Tests.{arithmetic, directory}
use predictive_hpa.LiveBaseline.Samples.{
  samples, readings, read_state, read_interval, response_value, field_value, any_overlap,
  metrics_conditions, condition_value,
}
use predictive_hpa.LiveBaseline.Occupancy.{readiness_evidence, statuses}
use predictive_hpa.LiveBaseline.Observations.{
  check_receipt, read_cycles, read_cycle, check_cycle, accepted_of, accept, write_of, increases,
}
use predictive_hpa.LiveBaseline.Analysis.{
  Python, Files, Report, check_binary, assemble, analyze, report_of,
}
use predictive_hpa.LiveBaseline.Analysis.Composed.{IsAnalysis, report_of-IsAnalysis}

abbrev queried : Json
queried = obj (
    fields (
      ("msg", str "Queried CPU utilization")
      ∷ ("reconcileID", str "r")
      ∷ ("reconcileStartedAt", int (pos 105))
      ∷ ("observationFinishedAt", int (pos 106))
      ∷ ("sourceTimestamp", int (pos 104))
      ∷ ("latestEvaluationAt", int (pos 104))
      ∷ ("samples", int (pos 4))
      ∷ []))

abbrev decided : Json
decided = obj (
    fields (
      ("msg", str "Evaluated PredictiveHPA scaling decision")
      ∷ ("reconcileID", str "r")
      ∷ ("reconcileStartedAt", int (pos 105))
      ∷ ("decisionMode", str "Hybrid")
      ∷ []))

abbrev log : List String
log =
    "{\"msg\": \"Queried CPU utilization\"}\n"
    ∷ "{\"msg\": \"Evaluated PredictiveHPA scaling decision\"}\n"
    ∷ "{\"msg\": \"Starting workers\"}\n" ∷ []

abbrev python : Python
python = record {
  clock = record { timestamp = λ s. none };
  arithmetic = arithmetic;
  to_float = λ v. err Error.value_error;
  thousandth = λ x. x;
  divide = λ x y. some x;
  joined = λ ws. "";
  parse_json = λ s. some (if contains "Queried" s then queried else decided);
}

abbrev plan : Fields
plan = fields (
    ("protocol_version", str "live-baseline-v1")
    ∷ ("startup_mode", str "cold")
    ∷ ("decision_mode", str "Hybrid")
    ∷ ("pattern", str "step")
    ∷ ("rps", int (pos 20))
    ∷ ("interval_seconds", int (pos 15))
    ∷ ("requeue_seconds", int (pos 30))
    ∷ ("quiet_seconds", int (pos 30))
    ∷ ("offered_duration_seconds", int (pos 181))
    ∷ ("post_load_tail_seconds", int (pos 360))
    ∷ ("controller_started_at", int (pos 100))
    ∷ [])

abbrev marker : Json
marker = obj (
    fields (
      ("scenario_start_unix", int (pos 121))
      ∷ ("onset_unix", int (pos 151))
      ∷ ("offered_end_unix", int (pos 332))
      ∷ []))

abbrev deployment : Json
deployment = obj (
    fields (
      ("metadata", obj (fields (("uid", str "d") ∷ ("name", str "web") ∷ [])))
      ∷ ("spec", one_entry "replicas" (int (pos 2)))
      ∷ []))

abbrev autoscaler : Json
autoscaler = obj (
    fields (
      ("metadata", one_entry "uid" (str "p"))
      ∷ (
        "spec",
        obj (
            fields (
              ("decisionMode", str "Hybrid")
              ∷ (
                "scaleTargetRef",
                obj (fields (("kind", str "Deployment") ∷ ("name", str "web") ∷ [])),
              )
              ∷ [])),
      )
      ∷ []))

abbrev state : ℤ → ℤ → Json
state start finish = obj (
    fields (
      ("kind", str "state")
      ∷ ("status", str "success")
      ∷ ("request_started_at", int start)
      ∷ ("request_finished_at", int finish)
      ∷ ("response", obj (fields (("deployment", deployment) ∷ ("phpa", autoscaler) ∷ [])))
      ∷ []))

abbrev files : Files
files = record {
  metadata = metadata;
  gate = gate;
  status = status;
  runner = fields (
      ("protocol_version", str "live-baseline-v1")
      ∷ ("status", str "success")
      ∷ ("exit_code", int (pos 0))
      ∷ ("controller_process_stopped", bool true)
      ∷ []);
  markers = marker ∷ marker ∷ [];
  rows = state (pos 139) (pos 140) ∷ state (pos 699) (pos 700) ∷ [];
  log = log;
  binary = err Error.index_error;
  business = directory;
}

made : (r : Report) × (report_of python plan files ≡ ok r)
unfolding report_of analyze assemble check_binary validate_plan check_amounts check_amount
    check_cadence schedule controller_cycles collect read_line row_of structured_row body_row
    tabbed_row split_tabs add_if add_event add_row timed sort validate_evidence check_identity
    check_metadata check_status check_uid check_source check_states check_state check_resource
    check_part check_target log_start check_modes check_mode business_evidence completion_evidence
    points_of read_points read_point check_time check_point check_tags summary_evidence summarize
    count_of values number whole samples readings read_state read_interval response_value
    field_value metrics_conditions condition_value any_overlap readiness_evidence statuses
    read_cycles read_cycle check_cycle accepted_of accept write_of increases check_receipt refuse_if
    get get_or item eq truthy less epoch ◌+ℤ◌
made = (_, refl)

report_of-IsAnalysis_example : IsPlan (obj plan) × IsAnalysis python plan files (made.0)
report_of-IsAnalysis_example = report_of-IsAnalysis python plan files made.0 made.1
