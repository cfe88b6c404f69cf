-- ===== src/LiveBaseline/Observations.antt =====
-- hack/analyze/live_baseline.py, analyze: what it reads off the readings and the controller's cycles:
-- the first growth, when the metrics were ready, the accepted observations and the writes.
use predictive_hpa.Prelude.{
  ℕ, zero, suc, String, Bool, true, false, not, ◌&&◌, ◌||◌, Option, some, none, List, [], ◌∷◌,
  Result, ok, err, ◌>>=◌, ◌>>◌, raise_if, if◌then◌else◌, keep_if, get_last?, ltb,
}
use predictive_hpa.Prelude.Int.{pos}
use predictive_hpa.Float
use predictive_hpa.Float.{Float}
use predictive_hpa.Json.{
  Json, int, obj, Fields, end, is_null, is_bool, is_str, truthy, eq, get, item, less, Error,
}
use predictive_hpa.Latency.Values.{Clock, Arithmetic, epoch, le}
use predictive_hpa.Latency.Cycles.{Cycle, Event, query, decision, scale}
use predictive_hpa.LiveBaseline.Refusal.{Refusal, refused, caught}
use predictive_hpa.LiveBaseline.Checks.{refuse_if, test}
use predictive_hpa.LiveBaseline.Marker.{time_at}
use predictive_hpa.LiveBaseline.Samples.{Reading}
use predictive_hpa.LiveBaseline.Occupancy.{Interval}
use predictive_hpa.LiveBaseline.Anchor.{event_row, below_two}
mod Growth
pub mod Backed
mod Tests

-- The runner's receipt.
unfoldable pub check_receipt : Fields → Result Refusal (Unit {0})
check_receipt runner =
    refuse_if
      (test (λ v. not (is_str "live-baseline-v1" v)) (item "protocol_version" (obj runner))
        ∷ test (λ v. not (is_str "success" v)) (item "status" (obj runner))
        ∷ test (λ v. not (eq v (int (pos 0)))) (item "exit_code" (obj runner))
        ∷ test (λ v. not (is_bool true v)) (item "controller_process_stopped" (obj runner))
        ∷ [])
      "Runner cleanup receipt does not confirm successful completion"

-- The readings cover the window: `first` and `last` are those of `requested`.
abbrev pub check_span : Float → Float → Option Reading → Option Reading → Result Refusal (Unit {0})
check_span onset stop (some first) (some last) =
    raise_if (Float.lt onset first.finish || Float.lt last.finish stop)
      (refused "State observations must cover actual onset and the complete post-load tail")
check_span onset stop _ _ =
    err (refused "State observations must cover actual onset and the complete post-load tail")

abbrev pub has_value : Option ℕ → Bool
has_value none = false
has_value (some n) = true

-- `v > baseline["value"]` for two values that are not None
abbrev pub exceeds : Option ℕ → Option ℕ → Bool
exceeds (some v) (some b) = ltb b v
exceeds _ _ = false

-- An accepted observation and a write, as they are reported.
pub record Accepted : Type 0 where
  pub started_at : Json
  pub evaluation : Float
  pub source : Float
  pub observation_finished : Float
  pub samples : Json
  pub source_age : Float

pub record Write : Type 0 where
  pub finished : Float
  pub previous_desired : Json
  pub desired : Json

-- `item.get(name, {})`
abbrev pub row_or_empty : Event → Cycle → Json
row_or_empty event c = if is_null (event_row event c) then obj end else event_row event c

-- The checks that a decision has its observation, and a write its decision.
unfoldable pub check_cycle : Json → Json → Json → Result Refusal (Unit {0})
check_cycle queried decided scaled = do
  (if truthy decided
      then refuse_if (ok (not (truthy queried)) ∷ test truthy (get "queryError" queried) ∷ [])
          "Accepted controller decision lacks its successful source observation"
      else ok tt)
  if truthy scaled
      then refuse_if
          (ok (not (truthy decided)) ∷ test (λ v. not (is_bool true v)) (get "scaled" scaled) ∷ [])
          "Successful Scale evidence lacks its decision or success flag"
      else ok tt

-- `[w for w in writes if w["desired_replicas"] > w["previous_desired_replicas"]]`
unfoldable pub increases : List Write → Result Error (List Write)
increases [] = ok []
increases (w ∷ ws) = do
  grows ← less w.previous_desired w.desired
  rest ← increases ws
  ok (if grows then w ∷ rest else rest)

abbrev pub and_more {ℓ} : {A : Type ℓ} → Option A → List A → List A
and_more none xs = xs
and_more (some x) xs = x ∷ xs

module _ (a : Arithmetic) (onset : Float) where
  -- The loop over the readings after the onset; `previous` is the last one with a value.
  pub find_growth : Option ℕ → Reading → List Reading → Option Interval
  find_growth baseline previous [] = none
  find_growth baseline previous (r ∷ rs) =
      let skipped = find_growth baseline previous rs in
      let later = find_growth baseline r rs in
      if le r.finish onset || not (has_value r.value)
      then skipped
      else (if exceeds r.value baseline
          then some
              (record { begin = a.minus previous.start onset; finish = a.minus r.finish onset })
          else later)

  abbrev growth_from : Option Reading → List Reading → Option Interval
  growth_from none ready = none
  growth_from (some baseline) ready = find_growth baseline.value baseline ready

  unfoldable pub first_growth : List Reading → Option Interval
  first_growth ready =
      growth_from (get_last? (keep_if (λ r. le r.finish onset && has_value r.value) ready)) ready

  -- `metrics_ready_interval`
  abbrev pub start_of_previous : Option Reading → Option Float
  start_of_previous none = none
  start_of_previous (some r) = some (a.minus r.start onset)

  abbrev pub keep_previous : Option ℕ → Reading → Option Reading → Option Reading
  keep_previous (some (suc zero)) r previous = some r
  keep_previous _ r previous = previous

  abbrev pub is_ready : Option ℕ → Bool
  is_ready (some zero) = true
  is_ready _ = false

  pub metrics_ready : Option Reading → List Reading → Option (Option Float × Float)
  metrics_ready previous [] = none
  metrics_ready previous (r ∷ rs) =
      let later = metrics_ready (keep_previous r.value r previous) rs in
      if is_ready r.value then some (start_of_previous previous, a.minus r.finish onset) else later

  module _ (clock : Clock) (stop : Float) where
    unfoldable pub accept : Json → Json → Result Refusal Accepted
    accept started queried = do
      observed ← caught (time_at clock "observationFinishedAt" queried)
      source ← caught (time_at clock "sourceTimestamp" queried)
      let age = a.minus observed source
      refuse_if (ok (Float.lt_int age (pos 0)) ∷ below_two (item "samples" queried) ∷ [])
          "Accepted observation has invalid source age or insufficient history"
      evaluation ← caught (time_at clock "latestEvaluationAt" queried)
      samples ← caught (item "samples" queried)
      ok (record {
        started_at = started;
        evaluation = evaluation;
        source = source;
        observation_finished = observed;
        samples = samples;
        source_age = age;
      })

    unfoldable pub accepted_of : Json → Json → Json → Result Refusal (Option Accepted)
    accepted_of started queried decided =
        let read = do
          failed ← caught (get "queryError" queried)
          let taken = do found ← accept started queried; ok (some found)
          if truthy failed then ok none else taken
        in if truthy queried && truthy decided then read else ok none

    unfoldable pub write_of : Json → Result Refusal (Option Write)
    write_of scaled =
        let read = do
          written ← caught (time_at clock "scaleWriteFinishedAt" scaled)
          let inside = do
            previous ← caught (item "previousDesiredReplicas" scaled)
            desired ← caught (item "finalDesired" scaled)
            ok (
                some (record {
                  finished = a.minus written onset;
                  previous_desired = previous;
                  desired = desired;
                }))
          if le onset written && le written stop then inside else ok none
        in if truthy scaled then read else ok none

    -- One cycle that does not begin before the log's start.
    unfoldable pub read_cycle : Cycle → Result Refusal (Option Accepted × Option Write)
    read_cycle c = do
      let queried = row_or_empty query c
      let decided = row_or_empty decision c
      let scaled = row_or_empty scale c
      check_cycle queried decided scaled
      found ← accepted_of c.started_at queried decided
      written ← write_of scaled
      ok (found, written)

    unfoldable pub read_cycles : Float → List Cycle → Result Refusal (List Accepted × List Write)
    read_cycles log_start [] = ok ([], [])
    read_cycles log_start (c ∷ cs) =
        let rest = read_cycles log_start cs in
        let here = do
          read ← read_cycle c
          others ← read_cycles log_start cs
          ok (and_more read.0 others.0, and_more read.1 others.1)
        in do
          started ← caught (epoch clock c.started_at)
          if Float.lt started log_start then rest else here
