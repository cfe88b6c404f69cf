-- ===== src/LiveBaseline/Completion.antt =====
-- hack/analyze/live_baseline.py, completion_evidence and summary_evidence: the receipts of the load
-- generator's process and its own summary.
use Prim.Native.Char.{Char, code}
use Prim.Native.String as Text
use predictive_hpa.Prelude.{
  ℕ, zero, suc, ◌+◌, ◌-◌, ◌*◌, ◌^◌, String, Bool, true, false, not, ◌&&◌, ◌||◌, Option, some, none,
  [], ◌∷◌, Result, ok, err, ◌>>=◌, ◌>>◌, raise_if, if◌then◌else◌, leb,
}
use predictive_hpa.Prelude.Int.{pos}
use predictive_hpa.Float
use predictive_hpa.Float.{Float, finite, of_ℤ}
use predictive_hpa.Json.{
  Json, int, float, obj, Fields, is_obj, is_str, eq, eq_float, get, get_or, item, has_field, Error,
}
use predictive_hpa.Latency.Values.{Arithmetic, le}
use predictive_hpa.LiveBaseline.Refusal.{Refusal, refused, caught, plain_number, is_nonnegative}
use predictive_hpa.LiveBaseline.Checks.{refuse_if, test}
use predictive_hpa.LiveBaseline.Marker.{Actual}
use predictive_hpa.LiveBaseline.Samples.{whole_count}

-- `re.fullmatch(r"[1-9][0-9]{0,11}", s)` and `int(s)`
abbrev pub is_digit : Char → Bool
is_digit c = leb b'0' (code c) && leb (code c) b'9'

abbrev pub digits : ℕ → ℕ → String → Option ℕ
digits bound value Text.[] = some value
digits zero value (Text.◌∷◌ c s) = none
digits (suc bound) value (Text.◌∷◌ c s) =
    let next = digits bound (value * 10 + (code c - b'0')) s in if is_digit c then next else none

abbrev pub process_time : String → Option ℕ
process_time Text.[] = none
process_time (Text.◌∷◌ c s) =
    let value = digits 12 0 (Text.◌∷◌ c s) in if leb b'1' (code c) then value else none

abbrev pub time_or_refuse : String → Option ℕ → Result Refusal ℕ
time_or_refuse name none = err (refused (Text.◌++◌ "Invalid integer process timestamp in " name))
time_or_refuse name (some n) = ok n

-- The entries of the result that are not constants.
pub record Completion : Type 0 where
  pub process_start : ℕ
  pub process_end : ℕ

abbrev pub is_int : Json → Bool
is_int (int _) = true
is_int _ = false

-- The receipts: the texts of the files stand without the white space around them.
pub record Receipts : Type 0 where
  pub runner : Fields
  pub exit_code : Json
  pub start_time : String
  pub end_time : String

module _ (a : Arithmetic) where
  -- The test on the two times of the process.
  abbrev pub not_covered : ℕ → ℕ → Actual → Bool
  not_covered start end actual =
      Float.lt actual.scenario_start (of_ℤ (pos start))
      || not (leb start end)
      || Float.lt (of_ℤ (pos (end + 1))) actual.offered_load_end
      || Float.lt (a.plus (a.plus actual.offered_load_end (of_ℤ (pos 40))) (of_ℤ (pos 1)))
          (of_ℤ (pos end))

  unfoldable pub completion_evidence : Receipts → Actual → Result Refusal Completion
  completion_evidence r actual = do
    let runner = obj r.runner
    refuse_if
        (ok (not (is_str "0" r.exit_code))
          ∷ test (λ v. not (is_str "success" v)) (item "status" runner)
          ∷ test (λ v. not (is_int v)) (item "k6_exit_code" runner)
          ∷ test (λ v. not (eq v (int (pos 0)))) (item "k6_exit_code" runner)
          ∷ test (λ v. not (is_str "" v)) (item "failure_reason" runner)
          ∷ [])
        "k6 runner did not report successful execution and cleanup"
    start ← time_or_refuse "k6-start-time-unix" (process_time r.start_time)
    end ← time_or_refuse "k6-end-time-unix" (process_time r.end_time)
    raise_if (not_covered start end actual)
        (refused "k6 process timestamps do not cover the offered load window and bounded drain")
    ok (record { process_start = start; process_end = end })

-- `values(name)`
unfoldable pub values : Json → String → Result Refusal Json
values metrics name = do
  metric ← caught (item name metrics)
  raise_if (not (is_obj metric)) (refused (Text.◌++◌ "Invalid k6 summary metric " name))
  value ← caught (get_or "values" metric metric)
  raise_if (not (is_obj value)) (refused (Text.◌++◌ "Invalid k6 summary metric " name))
  ok value

abbrev pub accepted_number : String → Option Float → Result Refusal Float
accepted_number label none = err (refused (Text.◌++◌ "Invalid k6 summary " label))
accepted_number label (some x) =
    if is_nonnegative (some x) then ok x else err (refused (Text.◌++◌ "Invalid k6 summary " label))

abbrev pub whole_number : String → Option Float → Result Refusal Float
whole_number label x = accepted_count label (whole_count x)
  where
    accepted_count : String → Option ℕ → Result Refusal Float
    accepted_count label none = err (refused (Text.◌++◌ "Invalid k6 summary " label))
    accepted_count label (some n) = ok (of_ℤ (pos n))

-- `number(v, label)` and `number(v, label, integer=True)`
unfoldable pub number : Json → String → Result Refusal Float
number v label = accepted_number label (plain_number v)

unfoldable pub whole : Json → String → Result Refusal Float
whole v label = whole_number label (plain_number v)

-- `number(values(name)["count"], label, integer=True)`
unfoldable pub count_of : Json → String → String → Result Refusal Float
count_of metrics name label = do
  vs ← values metrics name
  count ← caught (item "count" vs)
  whole count label

-- The entries of the result.
pub record Summary : Type 0 where
  pub requests : Float
  pub failures : Float
  pub dropped : Float
  pub p95 : Float
  pub attempt_count_available : Bool

-- The literals 1e-12 and 0.01
abbrev pub rate_tolerance : Float
rate_tolerance = finite (pos 0) (4951760157141521 * 2 ^ 982)

abbrev pub centi : Float
centi = finite (pos 0) (5764607523034235 * 2 ^ 1015)

-- `divide` is `x / y`, None where it raises.
module _ (a : Arithmetic) (divide : Float → Float → Option Float) where
  -- `math.isclose(x, y, rel_tol=0, abs_tol=t)`
  abbrev pub is_close : Float → Float → Float → Bool
  is_close t x y =
      eq_float x y || (Float.isfinite x && Float.isfinite y && le (a.absolute (a.minus y x)) t)

  abbrev pub rate_differs : Float → Option Float → Result Error Bool
  rate_differs rate none = err Error.value_error
  rate_differs rate (some x) = ok (not (is_close rate_tolerance rate x))

  -- `x != raw[name]`
  abbrev pub differs_from : Float → String → Fields → Result Error Bool
  differs_from x name raw = do v ← item name (obj raw); ok (not (eq (float x) v))

  abbrev pub p95_differs : Float → Option Float → Result Error Bool
  p95_differs p95 none = err Error.type_error
  p95_differs p95 (some x) = ok (not (is_close centi p95 x))

  abbrev pub has_attempts : Json → Fields → Result Refusal Bool
  has_attempts metrics fs =
      let counted = do vs ← values metrics "baseline_request_attempt"; ok (has_count vs)
      in if has_field "baseline_request_attempt" fs then counted else ok false
    where
      has_count : Json → Bool
      has_count (obj gs) = has_field "count" gs
      has_count _ = false

  abbrev pub check_attempts : Json → Bool → ℕ → Result Refusal (Unit {0})
  check_attempts metrics available attempts =
      let counted = do
        n ← count_of metrics "baseline_request_attempt" "attempt count"
        raise_if (not (eq_float n (of_ℤ (pos attempts))))
            (refused "k6 summary attempt count disagrees with raw evidence")
      in if available then counted else ok tt

  abbrev pub dropped_of : Json → Fields → Result Refusal Float
  dropped_of metrics fs =
      if has_field "dropped_iterations" fs
      then count_of metrics "dropped_iterations" "dropped count"
      else ok (of_ℤ (pos 0))

  unfoldable pub summarize : Fields → Fields → ℕ → Result Refusal Summary
  summarize fs raw attempts = do
    let metrics = obj fs
    requests ← count_of metrics "http_reqs" "request count"
    failed ← values metrics "http_req_failed"
    passes ← caught (item "passes" failed)
    failures ← whole passes "failure count"
    fails ← caught (item "fails" failed)
    nonfailures ← whole fails "nonfailure count"
    given ← caught (get "rate" failed)
    found ← caught (get_or "value" given failed)
    rate ← number found "failure rate"
    dropped ← dropped_of metrics fs
    refuse_if
        (differs_from requests "total_requests" raw
          ∷ differs_from failures "failed_count" raw
          ∷ ok (not (eq_float (a.plus failures nonfailures) requests))
          ∷ rate_differs rate (divide failures requests)
          ∷ differs_from dropped "dropped_iterations" raw
          ∷ [])
        "k6 summary request, failure or dropped counts disagree with raw evidence"
    available ← has_attempts metrics fs
    check_attempts metrics available attempts
    durations ← values metrics "http_req_duration"
    tail ← caught (item "p(95)" durations)
    p95 ← number tail "all-request p95"
    reported ← caught (item "duration_p95_ms" (obj raw))
    refuse_if (p95_differs p95 (plain_number reported) ∷ [])
        "k6 summary all-request p95 disagrees with raw evidence"
    ok (record {
      requests = requests;
      failures = failures;
      dropped = dropped;
      p95 = p95;
      attempt_count_available = available;
    })

  abbrev summarize_if_object : Json → Fields → ℕ → Result Refusal Summary
  summarize_if_object (obj fs) raw attempts = summarize fs raw attempts
  summarize_if_object _ raw attempts = err (refused "k6 summary metrics must be an object")

  unfoldable pub summary_evidence : Fields → Fields → ℕ → Result Refusal Summary
  summary_evidence summary raw attempts = do
    metrics ← caught (item "metrics" (obj summary))
    summarize_if_object metrics raw attempts
