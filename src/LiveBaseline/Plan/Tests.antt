-- ===== src/LiveBaseline/Plan/Tests.antt =====
-- A plan of the cadence pilot, and one that asks for the wrong duration.
use predictive_hpa.Prelude.{◌≡◌, refl, none, [], ◌∷◌, ok, err}
use predictive_hpa.Prelude.Int.{ℤ, pos}
use predictive_hpa.Json.{Json, str, int, obj, fields, item, eq}
use predictive_hpa.Latency.Values.{Clock, epoch}
use predictive_hpa.LiveBaseline.Refusal.{refused}
use predictive_hpa.LiveBaseline.Plan.{check_amount, check_amounts, check_cadence, validate_plan}

abbrev clock : Clock
clock = record { timestamp = λ s. none }

abbrev plan : ℤ → Json
plan offered = obj (
    fields (
      ("protocol_version", str "cadence-pilot-v1")
      ∷ ("startup_mode", str "warm")
      ∷ ("decision_mode", str "Current")
      ∷ ("pattern", str "step")
      ∷ ("rps", int (pos 40))
      ∷ ("interval_seconds", int (pos 2))
      ∷ ("requeue_seconds", int (pos 15))
      ∷ ("quiet_seconds", int (pos 0))
      ∷ ("offered_duration_seconds", int offered)
      ∷ ("post_load_tail_seconds", int (pos 360))
      ∷ ("controller_started_at", int (pos 1000))
      ∷ []))

accepted : validate_plan clock (plan (pos 181)) ≡ ok tt
unfolding validate_plan check_amounts check_amount check_cadence epoch item eq
accepted = refl

too_long :
    validate_plan clock (plan (pos 240))
    ≡ err (refused "Offered duration does not match the frozen load pattern")
unfolding validate_plan check_amounts check_amount check_cadence epoch item eq
too_long = refl
