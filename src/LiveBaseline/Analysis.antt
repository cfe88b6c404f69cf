-- ===== src/LiveBaseline/Analysis.antt =====
-- hack/analyze/live_baseline.py, analyze and the part of main that makes the report: the whole analysis
-- of a run, from its plan and from what was read of its directory.
use predictive_hpa.Prelude.{
  ℕ, String, Bool, true, false, not, ◌&&◌, ◌||◌, Option, some, none, List, [], ◌∷◌, Result, ok, err,
  ◌>>=◌, ◌>>◌, raise_if, if◌then◌else◌, any_of, count_if, get_elem?, get_last?,
}
use predictive_hpa.Prelude.Int.{pos}
use predictive_hpa.Float
use predictive_hpa.Float.{Float, of_ℤ}
use predictive_hpa.Json.{
  Json, obj, Fields, is_obj, is_str, get, get_field, has_field, item, at, Error,
}
use predictive_hpa.Latency.Values.{Clock, Arithmetic}
use predictive_hpa.Latency.Cycles.{Cycle, controller_cycles}
use predictive_hpa.LiveBaseline.Refusal.{Refusal, refused, raised, caught}
use predictive_hpa.LiveBaseline.Checks.{refuse_if}
use predictive_hpa.LiveBaseline.Plan.{validate_plan}
use predictive_hpa.LiveBaseline.Marker.{Actual, number_of, time_at, schedule}
use predictive_hpa.LiveBaseline.Identity.{not_digest}
use predictive_hpa.LiveBaseline.Evidence.{validate_evidence}
use predictive_hpa.LiveBaseline.Business.{Directory, Business, business_evidence}
use predictive_hpa.LiveBaseline.Samples.{Reading, Field, requested, ready, metrics, samples}
use predictive_hpa.LiveBaseline.Occupancy.{
  Interval, Coverage, Readiness, integrate, readiness_evidence,
}
use predictive_hpa.LiveBaseline.Observations.{
  Accepted, Write, check_receipt, check_span, first_growth, metrics_ready, read_cycles, increases,
}
mod Composed
mod Tests

-- What Python computes on floats and texts: the times, the arithmetic, `float` of a value, `x / 1000`,
-- `x / y` where it does not raise, the texts of warnings joined, and `json.loads` of a line.
pub record Python : Type 0 where
  pub clock : Clock
  pub arithmetic : Arithmetic
  pub to_float : Json → Result Error Float
  pub thousandth : Float → Float
  pub divide : Float → Float → Option Float
  pub joined : List String → String
  pub parse_json : String → Option Json

-- The files of the directory; `markers` are the schedule's, `rows` the observer's, and `binary` is the
-- first word of the build receipt, or what reading it raises.
pub record Files : Type 0 where
  pub metadata : Json
  pub gate : Fields
  pub status : Fields
  pub runner : Fields
  pub markers : List Json
  pub rows : List Json
  pub log : List String
  pub binary : Result Error String
  pub business : Directory

-- The report, less its constant texts, the hashes of the input files, and the files that it repeats.
pub record Report : Type 0 where
  pub protocol_version : Json
  pub experiment_id : Json
  pub decision_mode : Json
  pub pattern : Json
  pub schedule : Actual
  pub k6 : Business
  pub startup_mode : Json
  pub controller_started_at : Json
  pub controller_start_to_onset : Float
  pub first_accepted : Option Float
  pub metrics_ready_interval : Option (Option Float × Float)
  pub first_scale_increase : Option Float
  pub first_growth : Option Interval
  pub writes : List Write
  pub accepted : List Accepted
  pub declared_source : Json
  pub declared_binary : Json
  pub readiness : Readiness
  pub window : Float
  pub max_gap : Float
  pub requested : Coverage
  pub ready : Coverage
  pub observation_errors : ℕ
  pub complete_sampling : Bool

-- `not re.fullmatch(…, digest) or binary_receipt.read_text().split()[0] != digest`
abbrev pub differs_from_word : Json → Result Error String → Result Error Bool
differs_from_word digest word = do w ← word; ok (not (is_str w digest))

pub check_binary : Fields → Result Error String → Result Refusal (Unit {0})
check_binary plan word =
    let declared = do
      digest ← caught (item "controller_binary_sha256" (obj plan))
      refuse_if (not_digest digest ∷ differs_from_word digest word ∷ [])
          "Controller binary SHA256 disagrees with recorded build receipt"
    in if has_field "controller_binary_sha256" plan then declared else ok tt

abbrev pub first_finished : (Float → Float → Float) → Float → Option Accepted → Option Float
first_finished minus onset none = none
first_finished minus onset (some c) = some (minus c.observation_finished onset)

abbrev pub finished_of : Option Write → Option Float
finished_of none = none
finished_of (some w) = some w.finished

-- `sum(row.get("status") != "success" for row in rows)`
abbrev pub errors_of : List Json → ℕ
errors_of rows = count_if (λ row. not (is_str "success" (at ("status" ∷ []) row))) rows

module _ (p : Python) where
  -- `integrate` of a window's readings of the deployment
  abbrev pub occupancy : Actual → Float → List Reading → Coverage
  occupancy actual gap values =
      integrate p.arithmetic actual.load_onset actual.observation_end actual.offered_load_end gap
        values

  -- The report from what was computed.
  pub assemble :
      Fields
      → Files
      → Actual
      → Business
      → Float
      → List Reading
      → List Reading
      → List Reading
      → Readiness
      → List Accepted × List Write
      → Result Refusal Report
  assemble plan files actual k6 gap asked running conditions readiness found = do
    let a = p.arithmetic
    let onset = actual.load_onset
    let stop = actual.observation_end
    grown ← caught (increases found.1)
    protocol ← caught (item "protocol_version" (obj plan))
    experiment ← caught (item "experiment_id" files.metadata)
    mode ← caught (item "decision_mode" (obj plan))
    pattern ← caught (item "pattern" (obj plan))
    startup ← caught (item "startup_mode" (obj plan))
    begun ← caught (item "controller_started_at" (obj plan))
    started ← caught (time_at p.clock "controller_started_at" (obj plan))
    let of_asked = occupancy actual gap asked
    let of_running = occupancy actual gap running
    ok (record {
      protocol_version = protocol;
      experiment_id = experiment;
      decision_mode = mode;
      pattern = pattern;
      schedule = actual;
      k6 = k6;
      startup_mode = startup;
      controller_started_at = begun;
      controller_start_to_onset = a.minus onset started;
      first_accepted = first_finished a.minus onset (get_elem? found.0 0);
      metrics_ready_interval = metrics_ready a onset none conditions;
      first_scale_increase = finished_of (get_elem? grown 0);
      first_growth = first_growth a onset running;
      writes = found.1;
      accepted = found.0;
      declared_source = get_field "source_sha256" plan;
      declared_binary = get_field "controller_binary_sha256" plan;
      readiness = readiness;
      window = a.minus stop onset;
      max_gap = gap;
      requested = of_asked;
      ready = of_running;
      observation_errors = errors_of files.rows;
      complete_sampling = readiness.complete && of_asked.complete && of_running.complete;
    })

  unfoldable pub analyze : Fields → Files → Result Refusal Report
  analyze plan files = do
    let a = p.arithmetic
    check_receipt files.runner
    actual ← schedule a p.clock files.markers plan
    raise_if (any_of (λ row. not (is_obj row)) files.rows)
        (refused "Observation rows must be JSON objects")
    cycles ← caught (controller_cycles p.clock p.parse_json false files.log)
    start ←
        validate_evidence p.clock a p.to_float files.metadata plan files.gate files.status
          files.rows cycles actual
    check_binary plan files.binary
    k6 ← business_evidence p.clock a p.thousandth p.divide p.joined files.business actual
    interval ← caught (number_of "interval_seconds" (obj plan))
    let gap = a.times (of_ℤ (pos 2)) interval
    asked ← samples p.clock files.rows "deployment" requested
    running ← samples p.clock files.rows "deployment" ready
    check_span actual.load_onset actual.observation_end (get_elem? asked 0) (get_last? asked)
    conditions ← samples p.clock files.rows "phpa" metrics
    readiness ←
        caught (readiness_evidence a actual.load_onset actual.observation_end gap conditions)
    found ← read_cycles a actual.load_onset p.clock actual.observation_end start cycles
    assemble plan files actual k6 gap asked running conditions readiness found

  -- `validate_plan` and `analyze`, as main calls them
  unfoldable pub report_of : Fields → Files → Result Refusal Report
  report_of plan files = do validate_plan p.clock (obj plan); analyze plan files
