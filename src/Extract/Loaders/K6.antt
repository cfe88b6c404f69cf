-- ===== src/Extract/Loaders/K6.antt =====
-- hack/analyze/extract.py, load_k6: the totals over the points that k6 wrote, one line for each.
-- What the float operations make of the rates and of the percentiles is a parameter.
use predictive_hpa.Prelude.{
  ℕ, ◌+◌, String, Bool, true, false, not, ◌&&◌, Option, some, none, List, [], ◌∷◌, ◌++◌, length,
  Result, ok, err, ◌>>=◌, if◌then◌else◌, ◌==◌,
}
use predictive_hpa.Prelude.Int.{ℤ, pos, ◌+ℤ◌, eq_ℤ, ltb_ℤ}
use predictive_hpa.Float.{Float, of_ℤ, Operations}
use predictive_hpa.Json.{
  Json, obj, int, end, Fields, get, get_or, or_else, truthy, is_null, is_str, Error,
}
use predictive_hpa.Extract.Loaders.Values.{
  Parsers, LineFile, opened, absent, FileWarning, not_found, read_error, int_of, float_of,
  parse_iso_to_utc,
}
use predictive_hpa.Extract.Loaders.Percentile.{percentile}
mod Percentiles
mod Contribution
mod Adders
mod Step
mod Added
mod Tally
mod Tests

-- The variables of the loop.
pub record Totals : Type 0 where
  pub total_reqs : ℤ
  pub failed_count : ℕ
  pub dropped : ℤ
  pub all_durations_ms : List Float
  pub success_durations_ms : List Float
  pub http_200_count : ℕ
  pub observed_start_time : Option ℤ

abbrev pub no_points : Totals
no_points = record {
  total_reqs = pos 0;
  failed_count = 0;
  dropped = pos 0;
  all_durations_ms = [];
  success_durations_ms = [];
  http_200_count = 0;
  observed_start_time = none;
}

-- The earlier of the times seen, where the point has one.
abbrev pub earlier : Option ℤ → Option ℤ → Option ℤ
earlier seen none = seen
earlier none (some t) = some t
earlier (some s) (some t) = if ltb_ℤ t s then some t else some s

module _ (p : Parsers) where
  pub add_requests : Json → Totals → Result Error Totals
  add_requests value t = do
    n ← int_of p (or_else value (int (pos 0)))
    ok (record t { total_reqs = t.total_reqs +ℤ n })

  pub add_failed : Json → Totals → Result Error Totals
  add_failed value t = do
    n ← int_of p (or_else value (int (pos 0)))
    ok (record t { failed_count = (if eq_ℤ n (pos 1) then 1 else 0) + t.failed_count })

  pub add_dropped : Json → Totals → Result Error Totals
  add_dropped value t = do
    n ← int_of p (or_else value (int (pos 0)))
    ok (record t { dropped = t.dropped +ℤ n })

  pub add_duration : Json → Json → Totals → Result Error Totals
  add_duration value tags t = do
    ms ← float_of p value
    status ← get "status" tags
    expected ← get "expected_response" tags
    ok (record t {
      all_durations_ms = t.all_durations_ms ++ ms ∷ [];
      http_200_count = (if is_str "200" status then 1 else 0) + t.http_200_count;
      success_durations_ms =
          if is_str "true" expected && is_str "200" status
          then t.success_durations_ms ++ ms ∷ []
          else t.success_durations_ms;
    })

  -- The chain of tests on the metric.
  pub add_metric : Json → Json → Json → Totals → Result Error Totals
  add_metric metric value tags t =
      if is_str "http_reqs" metric
      then add_requests value t
      else (if is_str "http_req_failed" metric
          then add_failed value t
          else (if is_str "dropped_iterations" metric
              then add_dropped value t
              else (if is_str "http_req_duration" metric
                  then (if is_null value then ok t else add_duration value tags t)
                  else ok t)))

  pub add_data : Json → Totals → Result Error Totals
  add_data point t = do
    metric ← get "metric" point
    details ← get_or "data" (obj end) point
    value ← get "value" details
    tags ← get_or "tags" (obj end) details
    stamp ← get "time" details
    point_time ← parse_iso_to_utc p stamp
    add_metric metric value tags
        (record t { observed_start_time = earlier t.observed_start_time point_time })

  pub add_point : Json → Totals → Result Error Totals
  add_point point t = do
    kind ← get "type" point
    if is_str "Point" kind then add_data point t else ok t

  -- A line is None where it is blank or no JSON.
  pub add_lines : List (Option Json) → Totals → Result Error Totals
  add_lines [] t = ok t
  add_lines (none ∷ lines) t = add_lines lines t
  add_lines (some point ∷ lines) t = do t' ← add_point point t; add_lines lines t'

-- The returned dictionary.
pub record K6Metrics : Type 0 where
  pub total_requests : ℤ
  pub failed_count : ℕ
  pub failed_rate_pct : Option Float
  pub successful_requests_http_200 : ℕ
  pub successful_rate_http_200_pct : Option Float
  pub dropped_iterations : ℤ
  pub duration_p50_ms : Option Float
  pub duration_p95_ms : Option Float
  pub duration_p99_ms : Option Float
  pub duration_success_p50_ms : Option Float
  pub duration_success_p95_ms : Option Float
  pub duration_success_p99_ms : Option Float
  pub observed_start_time : Option ℤ

module _ (o : Operations) where
  -- `round(count / denominator * 100.0, 2) if denominator else None`
  abbrev pub rate : ℕ → ℕ → Option Float
  rate count denominator =
      if denominator == 0
      then none
      else some (
          o.round (o.times (o.divide (of_ℤ (pos count)) (of_ℤ (pos denominator))) (of_ℤ (pos 100)))
            2)

  -- `round(q, 2)`, which None has not.
  abbrev pub rounded : Option Float → Result Error (Option Float)
  rounded none = err Error.type_error
  rounded (some q) = ok (some (o.round q 2))

  -- `round(percentile(durations, p), 2) if durations else None`
  unfoldable pub duration_percentile : List Float → ℕ → Result Error (Option Float)
  duration_percentile [] p = ok none
  duration_percentile (x ∷ xs) p = do q ← percentile o (x ∷ xs) p; rounded q

  unfoldable pub metrics_of : Totals → Result Error K6Metrics
  metrics_of t = do
    p50 ← duration_percentile t.all_durations_ms 50
    p95 ← duration_percentile t.all_durations_ms 95
    p99 ← duration_percentile t.all_durations_ms 99
    success_p50 ← duration_percentile t.success_durations_ms 50
    success_p95 ← duration_percentile t.success_durations_ms 95
    success_p99 ← duration_percentile t.success_durations_ms 99
    ok (record {
      total_requests =
          if eq_ℤ t.total_reqs (pos 0) then pos (length t.all_durations_ms) else t.total_reqs;
      failed_count = t.failed_count;
      failed_rate_pct = rate t.failed_count (length t.all_durations_ms);
      successful_requests_http_200 = t.http_200_count;
      successful_rate_http_200_pct = rate t.http_200_count (length t.all_durations_ms);
      dropped_iterations = t.dropped;
      duration_p50_ms = p50;
      duration_p95_ms = p95;
      duration_p99_ms = p99;
      duration_success_p50_ms = success_p50;
      duration_success_p95_ms = success_p95;
      duration_success_p99_ms = success_p99;
      observed_start_time = t.observed_start_time;
    })

-- The pair that is returned, with nothing for the empty dictionary.
pub record Loaded : Type 0 where
  pub metrics : Option K6Metrics
  pub warnings : List FileWarning

-- What is returned after the loop, which an OSError may have ended.
abbrev pub loaded_of : Operations → Option String → Totals → Result Error Loaded
loaded_of o none t = do m ← metrics_of o t; ok (record { metrics = some m; warnings = [] })
loaded_of o (some error) t = ok (record { metrics = none; warnings = read_error error ∷ [] })

module _ (p : Parsers) (o : Operations) where
  unfoldable pub load_k6 : LineFile (Option Json) → Result Error Loaded
  load_k6 absent = ok (record { metrics = none; warnings = not_found ∷ [] })
  load_k6 (opened read ended) = do t ← add_lines p read no_points; loaded_of o ended t
