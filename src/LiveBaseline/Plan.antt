-- ===== src/LiveBaseline/Plan.antt =====
-- hack/analyze/live_baseline.py, validate_plan: the plans that the analysis accepts.
use Prim.Native.String as Text
use predictive_hpa.Prelude.{
  String, Bool, true, false, not, ◌&&◌, ◌||◌, List, [], ◌∷◌, Result, ok, err, ◌>>=◌, ◌>>◌, raise_if,
  if◌then◌else◌,
}
use predictive_hpa.Prelude.Int.{ℤ, pos}
use predictive_hpa.Float
use predictive_hpa.Float.{Float}
use predictive_hpa.Json.{Json, int, item, is_str, eq, Error}
use predictive_hpa.Latency.Values.{Clock, epoch}
use predictive_hpa.LiveBaseline.Refusal.{
  Refusal, refused, raised, caught, is_one_of, plain_number, is_nonnegative,
}
use text.Mathlib.Text.{◌==◌ as str_eq}
pub mod Accepted
mod Tests

abbrev pub cadence_protocol : String
cadence_protocol = "cadence-pilot-v1"

abbrev pub protocols : List String
protocols = "live-baseline-v1" ∷ cadence_protocol ∷ []

abbrev pub amounts : List String
amounts =
    "rps" ∷ "interval_seconds" ∷ "requeue_seconds" ∷ "quiet_seconds" ∷ "offered_duration_seconds"
    ∷ "post_load_tail_seconds" ∷ []

-- A finite number that is positive, or zero where that is allowed.
abbrev pub is_amount : Bool → Json → Bool
is_amount allow_zero v = is_nonnegative (plain_number v) && (allow_zero || not (eq v (int (pos 0))))

unfoldable pub check_amount : Bool → Json → String → Result Refusal (Unit {0})
check_amount cadence plan name = do
  value ← caught (item name plan)
  raise_if (not (is_amount (str_eq name "quiet_seconds" && cadence) value))
      (refused (Text.◌++◌ "Plan " (Text.◌++◌ name " must be a finite positive number")))

unfoldable pub check_amounts : Bool → Json → List String → Result Refusal (Unit {0})
check_amounts cadence plan [] = ok tt
check_amounts cadence plan (name ∷ names) = do
  check_amount cadence plan name
  check_amounts cadence plan names

-- `{"step": 181, "ramp": 240}[plan["pattern"]]`
abbrev pub load_duration : Json → ℤ
load_duration pattern = if is_str "step" pattern then pos 181 else pos 240

unfoldable pub check_cadence : Json → Json → Json → Json → Result Refusal (Unit {0})
check_cadence startup mode pattern requeue =
    raise_if
      (not (is_str "warm" startup)
        || not (is_str "Current" mode)
        || not (is_str "step" pattern)
        || not (eq requeue (int (pos 15)) || eq requeue (int (pos 30))))
      (refused "Cadence pilot requires warm Current step runs at 15 or 30 seconds")

module _ (clock : Clock) where
  unfoldable pub validate_plan : Json → Result Refusal (Unit {0})
  validate_plan plan = do
    protocol ← caught (item "protocol_version" plan)
    raise_if (not (is_one_of protocols protocol))
        (refused "Unsupported live baseline protocol or startup mode")
    startup ← caught (item "startup_mode" plan)
    raise_if (not (is_one_of ("warm" ∷ "cold" ∷ []) startup))
        (refused "Unsupported live baseline protocol or startup mode")
    mode ← caught (item "decision_mode" plan)
    raise_if (not (is_one_of ("Current" ∷ "Predictive" ∷ "Hybrid" ∷ []) mode))
        (refused "Unsupported decision mode")
    pattern ← caught (item "pattern" plan)
    raise_if (not (is_one_of ("step" ∷ "ramp" ∷ []) pattern)) (refused "Unsupported load pattern")
    let cadence = is_str cadence_protocol protocol
    check_amounts cadence plan amounts
    offered ← caught (item "offered_duration_seconds" plan)
    raise_if (not (eq offered (int (load_duration pattern))))
        (refused "Offered duration does not match the frozen load pattern")
    quiet ← caught (item "quiet_seconds" plan)
    raise_if (not (eq quiet (int (if cadence then pos 0 else pos 30))))
        (refused "Quiet period and observation tail must match the declared protocol")
    tail ← caught (item "post_load_tail_seconds" plan)
    raise_if (not (eq tail (int (pos 360))))
        (refused "Quiet period and observation tail must match the declared protocol")
    requeue ← caught (item "requeue_seconds" plan)
    (if cadence then check_cadence startup mode pattern requeue else ok tt)
    started ← caught (item "controller_started_at" plan)
    seconds ← caught (epoch clock started)
    ok tt
