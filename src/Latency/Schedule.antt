-- ===== src/Latency/Schedule.antt =====
-- hack/analyze/latency.py, scenario_schedule: when the load of a diagnostic run began and ended.
use predictive_hpa.Prelude.{
  Bool, true, false, not, ◌&&◌, ◌||◌, List, [], ◌∷◌, Result, ok, err, ◌>>=◌, ◌>>◌, raise_if,
  if◌then◌else◌, any_of, length, ◌==◌,
}
use predictive_hpa.Prelude.Int.{pos}
use predictive_hpa.Float
use predictive_hpa.Float.{Float, of_ℤ}
use predictive_hpa.Json.{Json, get, item, is_str, eq_float, Error}
use predictive_hpa.Latency.Values.{Clock, Arithmetic, epoch, le, finite_or_error}
mod Agreed
mod Tests

pub data Refusal : Type 0 where
  missing_attempts not_positive disagree precedes_onset : Refusal
  raised : Error → Refusal

abbrev pub caught {ℓ} : {A : Type ℓ} → Result Error A → Result Refusal A
caught (ok a) = ok a
caught (err e) = err (raised e)

-- The returned dictionary.
pub record Schedule : Type 0 where
  pub load_onset : Float
  pub offered_load_end : Float
  pub observation_end : Float
  pub first_request_attempt : Float

-- `row["data"]` of the points of the metric
pub attempts_of : List Json → Result Error (List Json)
attempts_of [] = ok []
attempts_of (row ∷ rows) =
    let skipped = attempts_of rows in
    let kept = do found ← item "data" row; rest ← attempts_of rows; ok (found ∷ rest)
    in do
      kind ← get "type" row
      metric ← get "metric" row
      if is_str "Point" kind && is_str "latency_request_attempt" metric then kept else skipped

-- `min(xs)` for xs with a first element
abbrev pub least : Float → List Float → Float
least best [] = best
least best (x ∷ xs) = least (if Float.lt x best then x else best) xs

-- `{…}` of floats
abbrev pub add_float : Float → List Float → List Float
add_float x xs = if any_of (λ y. eq_float y x) xs then xs else x ∷ xs

module _ (clock : Clock) where
  -- `epoch(row["time"])`
  pub time_of : Json → Result Error Float
  time_of attempt = do time ← item "time" attempt; epoch clock time

  pub times_of : List Json → Result Error (List Float)
  times_of [] = ok []
  times_of (attempt ∷ attempts) = do
    time ← time_of attempt
    rest ← times_of attempts
    ok (time ∷ rest)

module _ (a : Arithmetic) where
  abbrev pub schedule_at : Float → Float → Schedule
  schedule_at onset first = record {
    load_onset = onset;
    offered_load_end = a.plus onset (of_ℤ (pos 181));
    observation_end = a.plus onset (of_ℤ (pos 541));
    first_request_attempt = first;
  }

  -- From the only start on.
  pub from_start : Float → List Float → Result Refusal Schedule
  from_start start [] = err (raised Error.value_error)
  from_start start (time ∷ times) = do
    let onset = a.plus start (of_ℤ (pos 30))
    let first = least time times
    raise_if (Float.lt first onset) precedes_onset
    ok (schedule_at onset first)

-- `to_float` is `float` of a parsed value, and `thousandth` is `x / 1000`.
module _ (clock : Clock) (to_float : Json → Result Error Float) (thousandth : Float → Float) where
  -- `epoch(float(row["value"]) / 1000)`
  pub start_of : Json → Result Error Float
  start_of attempt = do
    value ← item "value" attempt
    milliseconds ← to_float value
    finite_or_error (thousandth milliseconds)

  pub starts_of : List Json → Result Error (List Float)
  starts_of [] = ok []
  starts_of (attempt ∷ attempts) = do
    start ← start_of attempt
    rest ← starts_of attempts
    ok (add_float start rest)

  module _ (a : Arithmetic) where
    pub from_starts : List Json → List Float → Result Refusal Schedule
    from_starts attempts (start ∷ []) = do
      times ← caught (times_of clock attempts)
      from_start a start times
    from_starts attempts _ = err disagree

    unfoldable pub scenario_schedule : List Json → Result Refusal Schedule
    scenario_schedule rows = do
      attempts ← caught (attempts_of rows)
      raise_if (length attempts == 0) missing_attempts
      starts ← caught (starts_of attempts)
      raise_if (any_of (λ x. le x (of_ℤ (pos 0))) starts) not_positive
      from_starts attempts starts
