-- ===== src/Extract/Loaders/K6/Tests.antt =====
-- A file of k6 with a request answered, one that failed, a broken line and another metric.
use predictive_hpa.Prelude.{String, ◌≡◌, refl, Option, some, none, List, [], ◌∷◌, ok, if◌then◌else◌}
use predictive_hpa.Prelude.Int.{ℤ, pos, ◌+ℤ◌}
use predictive_hpa.Float.{of_ℤ, Operations}
use predictive_hpa.Json.{Json, str, int, obj, fields, get, get_or, truthy}
use predictive_hpa.Extract.Loaders.Values.{
  LineFile, opened, Parsers, int_of, float_of, parse_iso_to_utc,
}
use predictive_hpa.Extract.Loaders.K6.{
  K6Metrics, add_requests, add_failed, add_dropped, add_duration, add_metric, add_data, add_point,
  add_lines, duration_percentile, metrics_of, load_k6,
}
use predictive_hpa.Extract.Loaders.Percentile.{interpolate, value_at, of_sorted, percentile}
use predictive_hpa.Extract.Loaders.Percentile.Exact.{operations}
use predictive_hpa.Prelude.{◌^◌}
use predictive_hpa.Prelude.Sorting.{insert, sort}
use text.Mathlib.Text.{◌==◌ as str_eq}

abbrev parsers : Parsers
parsers = record {
  int_of_text = λ s. none;
  float_of_text = λ s. none;
  from_iso_format =
      λ s. if str_eq s "2026-05-26T17:01:45+00:00" then some (pos 45) else some (pos 50);
}

abbrev point : String → ℤ → String → String → Option Json
point metric value time status = some (
    obj (
      fields (
        ("type", str "Point")
        ∷ ("metric", str metric)
        ∷ (
          "data",
          obj (
              fields (
                ("time", str time)
                ∷ ("value", int value)
                ∷ (
                  "tags",
                  obj (fields (("status", str status) ∷ ("expected_response", str "true") ∷ [])),
                )
                ∷ [])),
        )
        ∷ [])))

abbrev lines : List (Option Json)
lines =
    point "http_req_duration" (pos 12) "2026-05-26T17:01:50Z" "200"
    ∷ none
    ∷ point "http_req_duration" (pos 90) "2026-05-26T17:01:45Z" "500"
    ∷ point "http_req_failed" (pos 1) "2026-05-26T17:01:50Z" "500"
    ∷ point "http_reqs" (pos 1) "2026-05-26T17:01:50Z" "200"
    ∷ []

-- Doubles, with results rounded down.
abbrev exact : Operations
exact = operations (2 ^ 1074)

abbrev file : LineFile (Option Json)
file = opened lines none

metrics :
    (m : K6Metrics) × (load_k6 parsers exact file ≡ ok (record { metrics = some m; warnings = [] }))
unfolding load_k6 add_lines add_point add_data add_metric add_requests add_failed add_dropped
    add_duration metrics_of get get_or truthy int_of float_of parse_iso_to_utc ◌+ℤ◌
    duration_percentile percentile of_sorted value_at interpolate sort insert
metrics = (_, refl)

median : metrics.0.duration_p50_ms ≡ some (of_ℤ (pos 51))
unfolding metrics
median = refl

one_success : metrics.0.duration_success_p95_ms ≡ some (of_ℤ (pos 12))
unfolding metrics
one_success = refl

half_failed : metrics.0.failed_rate_pct ≡ some (of_ℤ (pos 50))
unfolding metrics
half_failed = refl

counted_and_started :
    (metrics.0.total_requests ≡ pos 1) × (metrics.0.observed_start_time ≡ some (pos 45))
unfolding metrics
counted_and_started = (refl, refl)
