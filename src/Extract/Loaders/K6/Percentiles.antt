-- ===== src/Extract/Loaders/K6/Percentiles.antt =====
-- hack/analyze/extract.py, load_k6: the percentiles of the durations.
use predictive_hpa.Prelude.{
  ℕ, ◌≤◌, ◌≡◌, refl, Option, some, none, List, [], ◌∷◌, length, ok, ok-injective, arith,
}
use predictive_hpa.Float.{Float, Operations}
use predictive_hpa.Json.{Error}
use predictive_hpa.Extract.Loaders.Percentile.Interpolated.{
  IsPositioned, IsPercentile, percentile-IsPercentile,
}
use predictive_hpa.Extract.Loaders.K6.{duration_percentile}
use mathlib.Core.Path.{subst}

module _ (o : Operations) where
  -- The percentile, rounded to two digits, or nothing where there is no duration.
  abbrev pub IsReported : List Float → ℕ → Option Float → Type 0
  IsReported durations p none = length durations ≡ 0
  IsReported durations p (some y) = (x : Float) × IsPercentile o durations p x × (y ≡ o.round x 2)

  -- The three percentiles that are reported of one list.
  abbrev pub ArePercentiles : List Float → Option Float → Option Float → Option Float → Type 0
  ArePercentiles durations p50 p95 p99 =
      IsReported durations 50 p50 × IsReported durations 95 p95 × IsReported durations 99 p99

  duration_percentile-IsReported :
      (durations : List Float) (p : ℕ) (q : Option Float)
      → IsPositioned o
      → p ≤ 100
      → duration_percentile o durations p ≡ ok q
      → IsReported durations p q
  unfolding duration_percentile
  duration_percentile-IsReported [] p q hyp part h =
      subst (IsReported [] p) (ok-injective {E = Error} _ _ h) refl
  duration_percentile-IsReported (x ∷ xs) p q hyp part h =
      let (y, found, is) = percentile-IsPercentile o (x ∷ xs) p hyp part (omega arith) in
      subst (IsReported (x ∷ xs) p) (ok-injective {E = Error} _ _ (rw found at h)) (y, is, refl)

  pub duration_percentile-ArePercentiles :
      (durations : List Float) (p50 p95 p99 : Option Float)
      → IsPositioned o
      → duration_percentile o durations 50 ≡ ok p50
      → duration_percentile o durations 95 ≡ ok p95
      → duration_percentile o durations 99 ≡ ok p99
      → ArePercentiles durations p50 p95 p99
  duration_percentile-ArePercentiles durations p50 p95 p99 hyp e50 e95 e99 = (
    duration_percentile-IsReported durations 50 p50 hyp (omega arith) e50,
    duration_percentile-IsReported durations 95 p95 hyp (omega arith) e95,
    duration_percentile-IsReported durations 99 p99 hyp (omega arith) e99,
  )
