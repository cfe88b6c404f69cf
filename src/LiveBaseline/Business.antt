-- ===== src/LiveBaseline/Business.antt =====
-- hack/analyze/live_baseline.py, business_evidence: the points of the load generator, counted and
-- compared with its receipts.
use predictive_hpa.Prelude.{
  ℕ, suc, ◌+◌, String, Bool, true, false, not, ◌&&◌, ◌||◌, Option, some, none, List, [], ◌∷◌,
  Result, ok, err, ◌>>=◌, ◌>>◌, raise_if, if◌then◌else◌, any_of, ◌==◌,
}
use predictive_hpa.Prelude.Int.{ℤ, pos, negsuc}
use predictive_hpa.Prelude.Texts.{contains}
use predictive_hpa.Float
use predictive_hpa.Float.{Float, finite, of_ℤ}
use predictive_hpa.Json.{
  Json, int, str, arr, obj, Fields, end, elements, is_str, eq, get, get_or, item, has_field, Error,
}
use predictive_hpa.Latency.Values.{Clock, Arithmetic}
use predictive_hpa.LiveBaseline.Refusal.{
  Refusal, refused, raised, caught, is_one_of, plain_number, is_nonnegative,
}
use predictive_hpa.LiveBaseline.Marker.{Actual, time_at, milli}
use predictive_hpa.LiveBaseline.Samples.{whole_count}
use predictive_hpa.LiveBaseline.Completion.{
  Completion, Receipts, Summary, centi, completion_evidence, summary_evidence,
}
mod Tally
pub mod Counted
pub mod Tests

-- `counts`
pub record Counts : Type 0 where
  pub requests : ℕ
  pub durations : ℕ
  pub failed : ℕ
  pub attempts : ℕ

abbrev pub counted : List String
counted = "http_reqs" ∷ "http_req_duration" ∷ "http_req_failed" ∷ "baseline_request_attempt" ∷ []

-- `int(x)` of a number that is not negative
abbrev pub whole_part : Float → ℕ
whole_part (finite (pos n) k) = n
whole_part _ = 0

-- `counts[name] += …`
abbrev pub add_point : Json → Float → Counts → Counts
add_point name x c =
    if is_str "http_reqs" name
    then record c { requests = c.requests + whole_part x }
    else (if is_str "http_req_duration" name
        then record c { durations = suc c.durations }
        else (if is_str "http_req_failed" name
            then record c { failed = suc c.failed }
            else (if is_str "baseline_request_attempt" name
                then record c { attempts = suc c.attempts }
                else c)))

-- `"status" in tags`
abbrev pub has_status : Json → Result Error Bool
has_status (obj fs) = ok (has_field "status" fs)
has_status (arr vs) = ok (any_of (is_str "status") (elements vs))
has_status (str s) = ok (contains "status" s)
has_status _ = err Error.type_error

abbrev pub is_whole : Option ℕ → Bool
is_whole none = false
is_whole (some n) = true

abbrev pub measured : Option Float → Result Refusal Float
measured none = err (refused "k6 metric values must be finite and nonnegative")
measured (some x) =
    if is_nonnegative (some x)
    then ok x
    else err (refused "k6 metric values must be finite and nonnegative")

-- `thousandth` is `x / 1000`.
module _ (clock : Clock) (a : Arithmetic) (thousandth : Float → Float) where
  -- The times of a point against the load and the process.
  unfoldable pub check_time : Actual → Completion → Json → Float → Result Refusal (Unit {0})
  check_time actual done name time = do
    raise_if (Float.lt time (a.minus actual.load_onset centi))
        (refused "k6 request evidence precedes actual onset")
    raise_if (Float.lt (of_ℤ (pos (done.process_end + 1))) time)
        (refused "k6 request evidence follows the recorded process completion")
    raise_if
        (is_str "baseline_request_attempt" name
          && Float.lt (a.plus actual.offered_load_end centi) time)
        (refused "k6 request attempt follows the offered load window")

  unfoldable pub check_tags : Json → Json → Result Refusal (Unit {0})
  check_tags name found =
      let status = do
        tags ← caught (get_or "tags" (obj end) found)
        present ← caught (has_status tags)
        raise_if (not present) (refused "k6 duration evidence lacks HTTP status")
      in if is_str "http_req_duration" name then status else ok tt

  unfoldable pub check_point : Actual → Json → Json → Json → Float → Result Refusal (Unit {0})
  check_point actual name found value x = do
    check_tags name found
    raise_if
        (is_str "http_req_failed" name && not (eq value (int (pos 0)) || eq value (int (pos 1))))
        (refused "Invalid k6 failure indicator")
    raise_if
        (is_one_of ("http_reqs" ∷ "dropped_iterations" ∷ []) name
          && not (is_whole (whole_count (some x))))
        (refused "Invalid k6 request/drop count")
    raise_if
        (is_str "baseline_request_attempt" name
          && Float.lt milli (a.absolute (a.minus (thousandth x) actual.scenario_start)))
        (refused "k6 request marker disagrees with actual scenario start")

  -- One point of a metric that is read.
  unfoldable pub read_point : Actual → Completion → Json → Json → Counts → Result Refusal Counts
  read_point actual done name found c = do
    value ← caught (item "value" found)
    x ← measured (plain_number value)
    time ← caught (time_at clock "time" found)
    check_time actual done name time
    check_point actual name found value x
    ok (add_point name x c)

  -- The loop over the points.
  unfoldable pub read_points : Actual → Completion → List Json → Counts → Result Refusal Counts
  read_points actual done [] c = ok c
  read_points actual done (point ∷ points) c = do
    name ← caught (get "metric" point)
    found ← caught (item "data" point)
    c' ←
        (if is_one_of counted name || is_str "dropped_iterations" name
          then read_point actual done name found c
          else ok c)
    read_points actual done points c'

-- `[row for row in rows if row.get("type") == "Point"]`
unfoldable pub points_of : List Json → Result Error (List Json)
points_of [] = ok []
points_of (row ∷ rows) = do
  kind ← get "type" row
  rest ← points_of rows
  ok (if is_str "Point" kind then row ∷ rest else rest)

abbrev pub no_counts : Counts
no_counts = record { requests = 0; durations = 0; failed = 0; attempts = 0 }

-- `len(set(counts.values())) != 1`
abbrev pub unequal : Counts → Bool
unequal c =
    not (c.durations == c.requests)
    || not (c.failed == c.requests)
    || not (c.attempts == c.requests)

abbrev pub check_warnings : (List String → String) → List String → Result Refusal (Unit {0})
check_warnings joined [] = ok tt
check_warnings joined (w ∷ ws) = err (refused (joined (w ∷ ws)))

-- What is read from the directory: `rows` the lines of the points, `loaded` what `load_k6` makes of
-- them, and the receipts.
pub record Directory : Type 0 where
  pub rows : List Json
  pub loaded : Fields × List String
  pub summary : Fields
  pub receipts : Receipts

-- The result, with its entry `integrity`.
pub record Business : Type 0 where
  pub loaded : Fields
  pub summary : Summary
  pub completion : Completion

module _ (clock : Clock) (a : Arithmetic) (thousandth : Float → Float)
    (divide : Float → Float → Option Float) (joined : List String → String) where
  unfoldable pub business_evidence : Directory → Actual → Result Refusal Business
  business_evidence d actual = do
    done ← completion_evidence a d.receipts actual
    points ← caught (points_of d.rows)
    c ← read_points clock a thousandth actual done points no_counts
    raise_if (c.requests == 0 || unequal c)
        (refused "Incomplete k6 requests, durations, failures or attempt markers")
    check_warnings joined d.loaded.1
    summary ← summary_evidence a divide d.summary d.loaded.0 c.attempts
    ok (record { loaded = d.loaded.0; summary = summary; completion = done })
