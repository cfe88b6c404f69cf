-- ===== src/LiveBaseline/Anchor.antt =====
-- hack/analyze/live_baseline.py, validate_evidence: the reconciliation that a warm run is anchored to.
use predictive_hpa.Prelude.{
  ℕ, zero, String, Bool, true, false, not, ◌&&◌, ◌||◌, List, [], ◌∷◌, Result, ok, err, ◌>>=◌, ◌>>◌,
  raise_if, if◌then◌else◌, keep_if, get_last?, Option, some, none, ◌==◌,
}
use predictive_hpa.Prelude.Int.{pos}
use predictive_hpa.Float
use predictive_hpa.Float.{Float, of_ℤ}
use predictive_hpa.Json.{
  Json, null, int, obj, Fields, is_obj, is_null, is_bool, truthy, get, item, eq, less, Error,
}
use predictive_hpa.Latency.Values.{Clock, Arithmetic, le}
use predictive_hpa.Latency.Cycles.{Cycle, Event, query, decision, finish, same_event}
use predictive_hpa.LiveBaseline.Refusal.{Refusal, refused, caught}
use predictive_hpa.LiveBaseline.Checks.{refuse_if, test, differ}
use predictive_hpa.LiveBaseline.Marker.{number_of, time_at}
use predictive_hpa.LiveBaseline.Samples.{Reading, metrics, samples}
pub mod Matched

-- `cycle.get(event)`
abbrev pub find_row : Event → List (Event × Json) → Json
find_row event [] = null
find_row event ((e, row) ∷ rows) = if same_event e event then row else find_row event rows

abbrev pub event_row : Event → Cycle → Json
event_row event c = find_row event c.rows

-- `matching[0].get(key) != anchor.get(key)` for the three keys
abbrev pub differ_rows : Json → Cycle → List (Result Error Bool)
differ_rows anchor c =
    differ (ok (event_row query c)) (get "query" anchor)
    ∷ differ (ok (event_row decision c)) (get "decision" anchor)
    ∷ differ (ok (event_row finish c)) (get "finish" anchor)
    ∷ []

pub check_matching : Json → List Cycle → Result Refusal (Unit {0})
check_matching anchor (c ∷ []) =
    refuse_if (differ_rows anchor c) "Warm gate anchor disagrees with retained controller log"
check_matching anchor _ = err (refused "Warm gate anchor disagrees with retained controller log")

-- `v < 2`
abbrev pub below_two : Result Error Json → Result Error Bool
below_two m = do v ← m; less v (int (pos 2))

-- The metrics were ready when the load began.
abbrev pub finish_if_ready : Float → Option ℕ → Option Float
finish_if_ready time (some zero) = some time
finish_if_ready time _ = none

abbrev pub last_ready : Option Reading → Option Float
last_ready none = none
last_ready (some r) = finish_if_ready r.finish r.value

module _ (clock : Clock) (a : Arithmetic) (to_float : Json → Result Error Float) where
  -- `not 0 <= float(decision["currentCPU%"]) < 5`
  abbrev pub not_idle : Json → Result Error Bool
  not_idle decided = do
    cpu ← item "currentCPU%" decided
    x ← to_float cpu
    ok (not (le (of_ℤ (pos 0)) x && Float.lt x (of_ℤ (pos 5))))

  abbrev pub still_protected : Json → Result Error Bool
  still_protected decided = do
    evaluated ← time_at clock "stabilizationEvaluatedAt" decided
    until ← time_at clock "coldStartProtectedUntil" decided
    ok (le evaluated until)

  -- `not 0 <= release - finished <= 2 * requeue + 12`
  abbrev pub not_fresh : Fields → Float → Json → Result Error Bool
  not_fresh plan release finished = do
    ended ← time_at clock "reconcileFinishedAt" finished
    let age = a.minus release ended
    let late = do
      requeue ← number_of "requeue_seconds" (obj plan)
      ok (not (le age (a.plus (a.times (of_ℤ (pos 2)) requeue) (of_ℤ (pos 12)))))
    if le (of_ℤ (pos 0)) age then late else ok true

  pub check_accepted : Json → Json → Json → Result Refusal (Unit {0})
  check_accepted queried decided finished =
      refuse_if
        (test truthy (get "queryError" queried)
          ∷ below_two (item "samples" queried)
          ∷ below_two (item "samples" decided)
          ∷ test truthy (get "reconcileError" finished)
          ∷ test (λ v. not (eq v (int (pos 1)))) (item "currentReplicas" decided)
          ∷ test (λ v. not (eq v (int (pos 1)))) (item "finalDesired" decided)
          ∷ not_idle decided
          ∷ [])
        "Warm gate lacks accepted history or successful reconciliation"

  pub check_protection : Fields → Float → Json → Json → Result Refusal (Unit {0})
  check_protection plan release decided finished =
      refuse_if
        (still_protected decided
          ∷ test (λ v. not (is_bool false v)) (item "coldStartProtection" decided)
          ∷ not_fresh plan release finished
          ∷ [])
        "Warm gate released before the initial protection window completed"

  pub check_ready : Fields → Float → Option Float → Result Refusal (Unit {0})
  check_ready plan onset none =
      err (refused "Warm onset lacks fresh current-generation MetricsReady=True evidence")
  check_ready plan onset (some ended) = do
    interval ← caught (number_of "interval_seconds" (obj plan))
    raise_if (Float.lt (a.times (of_ℤ (pos 2)) interval) (a.minus onset ended))
        (refused "Warm onset lacks fresh current-generation MetricsReady=True evidence")

  -- The start of the controller's log that counts, for a warm run.
  unfoldable pub anchor_start :
      Fields → Fields → Float → Float → List Json → List Cycle → Result Refusal Float
  anchor_start plan gate release onset rows cycles = do
    anchor ← caught (item "anchor" (obj gate))
    raise_if (not (is_obj anchor)) (refused "Warm gate requires a verified anchor reconciliation")
    started ← caught (item "reconcileStartedAt" anchor)
    check_matching anchor (keep_if (λ c. eq c.started_at started) cycles)
    queried ← caught (item "query" anchor)
    decided ← caught (item "decision" anchor)
    finished ← caught (item "finish" anchor)
    check_accepted queried decided finished
    check_protection plan release decided finished
    start ← caught (time_at clock "reconcileStartedAt" anchor)
    readings ← samples clock rows "phpa" metrics
    let prior = keep_if (λ r. le r.finish onset) readings
    check_ready plan onset (last_ready (get_last? prior))
    ok start
