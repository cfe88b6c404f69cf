-- ===== src/Extract/Loaders/K6/Tally.antt =====
-- hack/analyze/extract.py, load_k6: the metrics against the points of the file.
use predictive_hpa.Prelude.{
  if◌then◌else◌, true, ◌≡◌, ◌⊎◌, Option, some, none, List, [], ◌∷◌, length, All, Any,
}
use predictive_hpa.Prelude.Int.{pos, eq_ℤ}
use predictive_hpa.Json.{Json}
use predictive_hpa.Extract.Loaders.Values.{Parsers, LineFile, opened, absent, not_found, read_error}
use predictive_hpa.Extract.Loaders.K6.{K6Metrics, rate, Loaded}
use predictive_hpa.Extract.Loaders.K6.Contribution.{is_point, time_of}
use predictive_hpa.Extract.Loaders.K6.Percentiles.{ArePercentiles}
use predictive_hpa.Float.{Operations}
use predictive_hpa.Prelude.Inversion.{◌>>=◌}
use predictive_hpa.Extract.Loaders.K6.Added.{
  points, IsNotBefore, durations_of, successes_of, requests_of, dropped_of, answered_of, failed_of,
}

module _ (p : Parsers) (o : Operations) where
  -- The metrics are those of the points: the requests that were sent, failed and dropped, those
  -- answered with the status 200, and the percentiles of the durations of all and of those that were
  -- answered as expected; and the earliest of the points' times.
  pub record IsSummary (vs : List Json) (m : K6Metrics) : Type 0 where
    pub requests : m.total_requests ≡ (
        if eq_ℤ (requests_of p vs) (pos 0)
        then pos (length (durations_of p vs))
        else requests_of p vs)
    pub failed : m.failed_count ≡ failed_of p vs
    pub failed_rate : m.failed_rate_pct ≡ rate o (failed_of p vs) (length (durations_of p vs))
    pub answered : m.successful_requests_http_200 ≡ answered_of p vs
    pub answered_rate :
        m.successful_rate_http_200_pct ≡ rate o (answered_of p vs) (length (durations_of p vs))
    pub dropped : m.dropped_iterations ≡ dropped_of p vs
    pub of_all :
        ArePercentiles o (durations_of p vs) m.duration_p50_ms m.duration_p95_ms m.duration_p99_ms
    pub of_success :
        ArePercentiles o
          (successes_of p vs)
          m.duration_success_p50_ms
          m.duration_success_p95_ms
          m.duration_success_p99_ms
    pub not_before :
        All (λ v. is_point v ≡ true → IsNotBefore m.observed_start_time (time_of p v)) vs
    pub observed :
        (m.observed_start_time ≡ none)
        ⊎ Any (λ v. (is_point v ≡ true) × (m.observed_start_time ≡ time_of p v)) vs

  -- What is loaded of a file: the metrics of its points, or a warning that says why there are none.
  abbrev pub IsLoaded : LineFile (Option Json) → Loaded → Type 0
  IsLoaded absent l = (l.metrics ≡ none) × (l.warnings ≡ not_found ∷ [])
  IsLoaded (opened read none) l =
      (m : K6Metrics) × (l.metrics ≡ some m) × (l.warnings ≡ []) × IsSummary (points read) m
  IsLoaded (opened read (some error)) l = (l.metrics ≡ none) × (l.warnings ≡ read_error error ∷ [])
