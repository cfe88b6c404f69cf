-- ===== src/LiveBaseline/Evidence.antt =====
-- hack/analyze/live_baseline.py, validate_evidence: the checks together, and where the part of the
-- controller's log begins that the analysis reads.
use predictive_hpa.Prelude.{
  String, Bool, true, false, not, ◌&&◌, ◌||◌, List, [], ◌∷◌, Result, ok, err, ◌>>=◌, ◌>>◌, raise_if,
  if◌then◌else◌, length, ◌==◌,
}
use predictive_hpa.Float
use predictive_hpa.Float.{Float}
use predictive_hpa.Json.{Json, obj, Fields, is_null, is_str, truthy, get, item, Error}
use predictive_hpa.Latency.Values.{Clock, Arithmetic, epoch, le}
use predictive_hpa.Latency.Cycles.{Cycle, Event, decision, scale}
use predictive_hpa.LiveBaseline.Refusal.{Refusal, refused, caught}
use predictive_hpa.LiveBaseline.Checks.{refuse_if, test, differ, item_at}
use predictive_hpa.LiveBaseline.Marker.{Actual, time_at}
use predictive_hpa.LiveBaseline.Identity.{check_identity}
use predictive_hpa.LiveBaseline.States.{observed, check_states}
use predictive_hpa.LiveBaseline.Anchor.{event_row, anchor_start}
pub mod Consistent
pub mod Tests

-- A row of a cycle, if there is one, has the mode of the plan.
abbrev pub wrong_mode : Fields → Cycle → Event → Result Error Bool
wrong_mode plan c event =
    if truthy (event_row event c)
    then differ (item_at ("decisionMode" ∷ []) (event_row event c))
        (item_at ("decision_mode" ∷ []) (obj plan))
    else ok false

-- The two rows of a cycle that name a mode.
unfoldable pub check_mode : Fields → Cycle → Result Refusal (Unit {0})
check_mode plan c = do
  refuse_if (wrong_mode plan c decision ∷ []) "Controller decision mode disagrees with plan"
  refuse_if (wrong_mode plan c scale ∷ []) "Controller decision mode disagrees with plan"

-- The loop over the cycles that do not begin before the start.
unfoldable pub check_modes : Clock → Fields → Float → List Cycle → Result Refusal (Unit {0})
check_modes clock plan start [] = ok tt
check_modes clock plan start (c ∷ cs) = do
  started ← caught (epoch clock c.started_at)
  (if Float.lt started start then ok tt else check_mode plan c)
  check_modes clock plan start cs

abbrev pub no_states : List Json → Result Error Bool
no_states rows = do seen ← observed rows; ok (not seen)

module _ (clock : Clock) (a : Arithmetic) (to_float : Json → Result Error Float) where
  -- `log_start`
  unfoldable pub log_start :
      Fields → Fields → Float → Float → Float → List Json → List Cycle → Result Refusal Float
  log_start plan gate controller release onset rows cycles =
      let warm = anchor_start clock a to_float plan gate release onset rows cycles in
      let cold = do
        refuse_if (test (λ v. not (is_null v)) (get "anchor" (obj gate)) ∷ [])
            "Cold gate must keep warm anchor absent"
        ok controller
      in do
        startup ← caught (item "startup_mode" (obj plan))
        if is_str "warm" startup then warm else cold

  unfoldable pub validate_evidence :
      Json → Fields → Fields → Fields → List Json → List Cycle → Actual → Result Refusal Float
  validate_evidence metadata plan gate status rows cycles actual = do
    check_identity metadata plan gate status
    release ← caught (time_at clock "released_at" (obj gate))
    controller ← caught (time_at clock "controller_started_at" (obj plan))
    raise_if (not (le controller release && le release actual.scenario_start))
        (refused "Controller start, gate release and scenario start are inconsistent")
    refuse_if (ok (length cycles == 0) ∷ no_states rows ∷ [])
        "Missing controller cycles or successful state observations"
    check_states plan gate rows
    start ← log_start plan gate controller release actual.load_onset rows cycles
    check_modes clock plan start cycles
    ok start
