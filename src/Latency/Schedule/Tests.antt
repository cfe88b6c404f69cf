-- ===== src/Latency/Schedule/Tests.antt =====
-- Two requests of one scenario, the later one first.
use predictive_hpa.Prelude.{◌≡◌, refl, none, List, [], ◌∷◌, Result, ok, err}
use predictive_hpa.Prelude.Int.{ℤ, pos, ◌+ℤ◌}
use predictive_hpa.Float.{Float, finite, of_ℤ, nan}
use predictive_hpa.Json.{Json, str, int, obj, fields, get, item, Error}
use predictive_hpa.Latency.Values.{Clock, Arithmetic, epoch}
use predictive_hpa.Latency.Schedule.{
  Schedule, precedes_onset, attempts_of, start_of, starts_of, time_of, times_of, from_start,
  from_starts, scenario_schedule,
}
use predictive_hpa.Latency.Schedule.Agreed.{IsScheduled, scenario_schedule-IsScheduled}

abbrev clock : Clock
clock = record { timestamp = λ s. none }

-- Sums of whole numbers are enough here.
abbrev sum_of : Float → Float → Float
sum_of (finite n k) (finite m l) = finite (n +ℤ m) 0
sum_of _ _ = nan

abbrev whole : Arithmetic
whole = record { minus = λ x y. x; plus = sum_of; times = λ x y. x; absolute = λ x. x }

abbrev to_float : Json → Result Error Float
to_float (int n) = ok (of_ℤ n)
to_float _ = err Error.type_error

abbrev attempt : ℤ → Json
attempt time = obj (
    fields (
      ("type", str "Point")
      ∷ ("metric", str "latency_request_attempt")
      ∷ ("data", obj (fields (("value", int (pos 1000)) ∷ ("time", int time) ∷ [])))
      ∷ []))

abbrev rows : List Json
rows = attempt (pos 1035) ∷ attempt (pos 1031) ∷ []

abbrev schedule : Schedule
schedule = record {
  load_onset = of_ℤ (pos 1030);
  offered_load_end = of_ℤ (pos 1211);
  observation_end = of_ℤ (pos 1571);
  first_request_attempt = of_ℤ (pos 1031);
}

scheduled : scenario_schedule clock to_float (λ x. x) whole rows ≡ ok schedule
unfolding scenario_schedule attempts_of starts_of start_of times_of time_of from_starts from_start
    epoch get item ◌+ℤ◌
scheduled = refl

-- A request before the onset is refused.
early :
    scenario_schedule clock to_float (λ x. x) whole (attempt (pos 1029) ∷ []) ≡ err precedes_onset
unfolding scenario_schedule attempts_of starts_of start_of times_of time_of from_starts from_start
    epoch get item ◌+ℤ◌
early = refl

scenario_schedule-IsScheduled_example : IsScheduled clock to_float (λ x. x) whole rows schedule
scenario_schedule-IsScheduled_example =
    scenario_schedule-IsScheduled clock to_float (λ x. x) whole rows schedule scheduled
