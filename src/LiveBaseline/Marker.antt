-- ===== src/LiveBaseline/Marker.antt =====
-- hack/analyze/live_baseline.py, schedule: when the load of a baseline run began and ended, from the
-- markers that the load generator printed.
use predictive_hpa.Prelude.{
  Bool, not, ◌*◌, ◌^◌, String, Option, some, none, List, [], ◌∷◌, Result, ok, err, ◌>>=◌, ◌>>◌,
  raise_if, any_of,
}
use predictive_hpa.Prelude.Int.{pos}
use predictive_hpa.Float
use predictive_hpa.Float.{Float, finite, of_ℤ}
use predictive_hpa.Json.{Json, obj, Fields, item, eq, number?, Error}
use predictive_hpa.Latency.Values.{Clock, Arithmetic, epoch, le}
use predictive_hpa.LiveBaseline.Refusal.{Refusal, refused, caught}
use predictive_hpa.LiveBaseline.Checks.{refuse_if}
use predictive_hpa.LiveBaseline.Identity.{differ_where_given}
pub mod Agreed

-- The returned dictionary.
pub record Actual : Type 0 where
  pub scenario_start : Float
  pub load_onset : Float
  pub offered_load_end : Float
  pub observation_end : Float

-- A number of the plan, as the float of its value.
abbrev pub number_or_error : Option Float → Result Error Float
number_or_error none = err Error.type_error
number_or_error (some x) = ok x

abbrev pub number_of : String → Json → Result Error Float
number_of name v = do x ← item name v; number_or_error (number? x)

-- The literal 0.001
abbrev pub milli : Float
milli = finite (pos 0) (1152921504606847 * 2 ^ 1014)

-- `epoch(v[name])`
abbrev pub time_at : Clock → String → Json → Result Error Float
time_at clock name v = do x ← item name v; epoch clock x

module _ (a : Arithmetic) where
  -- `abs(x - y - z) > 0.001`
  abbrev pub off : Float → Float → Float → Bool
  off x y z = Float.lt milli (a.absolute (a.minus (a.minus x y) z))

  module _ (clock : Clock) where
    unfoldable pub schedule : List Json → Fields → Result Refusal Actual
    schedule [] plan = err (refused "Missing actual k6 PHPA_BASELINE_SCHEDULE evidence")
    schedule (first ∷ rest) plan = do
      start ← caught (time_at clock "scenario_start_unix" first)
      onset ← caught (time_at clock "onset_unix" first)
      end ← caught (time_at clock "offered_end_unix" first)
      raise_if (any_of (λ row. not (eq row first)) rest) (refused "Conflicting k6 schedule markers")
      raise_if (le start (of_ℤ (pos 0))) (refused "Actual k6 schedule disagrees with plan")
      quiet ← caught (number_of "quiet_seconds" (obj plan))
      raise_if (off onset start quiet) (refused "Actual k6 schedule disagrees with plan")
      offered ← caught (number_of "offered_duration_seconds" (obj plan))
      raise_if (off end onset offered) (refused "Actual k6 schedule disagrees with plan")
      refuse_if (differ_where_given "pattern" first plan ∷ [])
          "Actual k6 pattern disagrees with plan"
      tail ← caught (number_of "post_load_tail_seconds" (obj plan))
      ok (record {
        scenario_start = start;
        load_onset = onset;
        offered_load_end = end;
        observation_end = a.plus end tail;
      })
