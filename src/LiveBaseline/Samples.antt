-- ===== src/LiveBaseline/Samples.antt =====
-- hack/analyze/live_baseline.py, read_interval and samples: what an observer read of one resource.
use predictive_hpa.Prelude.{
  ℕ, String, Bool, true, false, not, ◌&&◌, ◌||◌, Option, some, none, List, [], ◌∷◌, Result, ok, err,
  ◌>>=◌, ◌>>◌, raise_if, if◌then◌else◌, ◌==◌,
}
use predictive_hpa.Prelude.Int.{ℤ, pos, negsuc}
use predictive_hpa.Float
use predictive_hpa.Float.{Float, finite}
use predictive_hpa.Json.{
  Json, null, int, str, arr, obj, nil, end, elements, get, get_or, item, is_str, eq, hashable,
  Error,
}
use predictive_hpa.Latency.Values.{Clock, epoch, le}
use predictive_hpa.LiveBaseline.Refusal.{Refusal, refused, raised, caught, plain_number}
pub mod Ordered
mod Tests

-- The entries of the result.
pub record Reading : Type 0 where
  pub start : Float
  pub finish : Float
  pub value : Option ℕ

-- The argument `field`.
pub data Field : Type 0 where
  requested ready metrics : Field

-- A finite number that is whole and not negative.
abbrev pub whole_count : Option Float → Option ℕ
whole_count (some (finite (pos n) k)) = if k == 0 then some n else none
whole_count _ = none

abbrev pub count_or_refuse : Option ℕ → Result Refusal (Option ℕ)
count_or_refuse none = err (refused "Replica counts must be finite nonnegative integers")
count_or_refuse (some n) = ok (some n)

-- The test on the value, which may be None.
abbrev pub check_value : Json → Result Refusal (Option ℕ)
check_value null = ok none
check_value v = count_or_refuse (whole_count (plain_number v))

-- `[c for c in conditions if c.get("type") == "MetricsReady"]`
unfoldable pub metrics_conditions : List Json → Result Error (List Json)
metrics_conditions [] = ok []
metrics_conditions (c ∷ cs) = do
  kind ← get "type" c
  rest ← metrics_conditions cs
  ok (if is_str "MetricsReady" kind then c ∷ rest else rest)

abbrev pub iterate : Json → Result Error (List Json)
iterate (arr vs) = ok (elements vs)
iterate (str _) = err Error.attribute_error
iterate (obj end) = ok []
iterate (obj _) = err Error.attribute_error
iterate _ = err Error.type_error

-- `{"True": 0, "False": 1}.get(status)`
abbrev pub metrics_value : Json → Result Error Json
metrics_value status =
    if hashable status
    then ok (
        if is_str "True" status
        then int (pos 0)
        else (if is_str "False" status then int (pos 1) else null))
    else err Error.type_error

-- Only a single condition of the current generation counts.
unfoldable pub condition_value : Json → List Json → Result Error Json
condition_value resource (c ∷ []) = do
  observed ← get "observedGeneration" c
  metadata ← item "metadata" resource
  generation ← get "generation" metadata
  status ← get "status" c
  if eq observed generation then metrics_value status else ok null
condition_value resource _ = ok null

unfoldable pub field_value : Field → Json → Result Error Json
field_value requested resource = do spec ← item "spec" resource; item "replicas" spec
field_value ready resource = do
  status ← get_or "status" (obj end) resource
  get_or "readyReplicas" (int (pos 0)) status
field_value metrics resource = do
  status ← get_or "status" (obj end) resource
  listed ← get_or "conditions" (arr nil) status
  conditions ← iterate listed
  found ← metrics_conditions conditions
  condition_value resource found

unfoldable pub response_value : String → Field → Json → Result Error Json
response_value resource field row = do
  response ← item "response" row
  part ← item resource response
  field_value field part

module _ (clock : Clock) where
  unfoldable pub read_interval : Json → String → Result Refusal (Float × Float)
  read_interval row resource = do
    requests ← caught (get_or "requests" (obj end) row)
    timing ← caught (get_or resource row requests)
    started ← caught (item "request_started_at" timing)
    start ← caught (epoch clock started)
    finished ← caught (item "request_finished_at" timing)
    finish ← caught (epoch clock finished)
    raise_if (Float.lt finish start) (refused "Observer request finishes before it starts")
    ok (start, finish)

  unfoldable pub read_state : Json → String → Field → Result Refusal Reading
  read_state row resource field = do
    times ← read_interval row resource
    status ← caught (get "status" row)
    found ←
        (if is_str "success" status then caught (response_value resource field row) else ok null)
    value ← check_value found
    let r : Reading = record { start = times.0; finish = times.1; value = value }
    ok r

  -- The loop over the rows.
  unfoldable pub readings : List Json → String → Field → Result Refusal (List Reading)
  readings [] resource field = ok []
  readings (row ∷ rows) resource field =
      let rest = readings rows resource field in
      let read = do
        r ← read_state row resource field
        rs ← readings rows resource field
        ok (r ∷ rs)
      in do kind ← caught (get "kind" row); if is_str "state" kind then read else rest

-- The `any` over neighbours.
abbrev pub overlaps : Reading → Reading → Bool
overlaps left right = Float.lt right.start left.finish || le right.finish left.finish

unfoldable pub any_overlap : List Reading → Bool
any_overlap [] = false
any_overlap (r ∷ []) = false
any_overlap (l ∷ r ∷ rs) = overlaps l r || any_overlap (r ∷ rs)

module _ (clock : Clock) where
  unfoldable pub samples : List Json → String → Field → Result Refusal (List Reading)
  samples rows resource field = do
    rs ← readings clock rows resource field
    raise_if (any_overlap rs) (
        refused
          "Observer resource reads must be ordered without duplicate or overlapping intervals")
    ok rs
