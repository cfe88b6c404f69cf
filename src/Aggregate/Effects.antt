-- ===== src/Aggregate/Effects.antt =====
-- hack/analyze/aggregate.py, compute_delta and metric_effects: the differences between group means
-- that the report states. The arithmetic on floats is that of Python's standard library.
use predictive_hpa.Prelude.{
  String, Bool, true, false, Option, some, none, List, [], ◌∷◌, ◌≡◌, Result, ok, err, ◌>>=◌,
  if◌then◌else◌,
}
use predictive_hpa.Prelude.Int.{pos}
use predictive_hpa.Float
use predictive_hpa.Float.{Float}
use predictive_hpa.Json.{Error}
use text.Mathlib.Text.{◌==◌ as str_eq}
mod Missing
mod Tests

-- `statistics.mean`, `x - y`, `(x / y) * 100` and `abs(x) < 1e-9`.
pub record Arithmetic : Type 0 where
  pub mean : List Float → Float
  pub minus : Float → Float → Float
  pub percent : Float → Float → Float
  pub is_tiny : Float → Bool

-- The texts that the function returns, before they are formatted.
pub data Delta : Type 0 where
  not_available : Delta
  negative_baseline near_zero_baseline : Float → Delta
  relative : Float → Float → Delta

-- `[v for v in values if v is not None]`
abbrev pub present {ℓ} : {A : Type ℓ} → List (Option A) → List A
present [] = []
present (none ∷ vs) = present vs
present (some v ∷ vs) = v ∷ present vs

module _ (arithmetic : Arithmetic) where
  open arithmetic use {mean, minus, percent, is_tiny}

  pub delta_of_means : Float → Float → Delta
  delta_of_means candidate_mean baseline_mean =
      let delta = minus candidate_mean baseline_mean in
      if Float.lt_int baseline_mean (pos 0)
      then negative_baseline delta
      else (if is_tiny baseline_mean
          then near_zero_baseline delta
          else relative delta (percent delta baseline_mean))

  pub delta_of : List Float → List Float → Delta
  delta_of [] baseline = not_available
  delta_of candidate [] = not_available
  delta_of candidate baseline = delta_of_means (mean candidate) (mean baseline)

  unfoldable pub compute_delta : List (Option Float) → List (Option Float) → Delta
  unfolding delta_of delta_of_means
  compute_delta candidate_vals baseline_vals =
      delta_of (present candidate_vals) (present baseline_vals)

abbrev pub Columns : Type 0
Columns = List (String × List (Option Float))

-- `values[controller]`
abbrev pub column : String → Columns → Result Error (List (Option Float))
column name [] = err Error.key_error
column name ((n, vs) ∷ columns) = if str_eq n name then ok vs else column name columns

module _ (arithmetic : Arithmetic) where
  -- The window effect and the prediction effect.
  unfoldable pub metric_effects : Columns → Result Error (Delta × Delta)
  metric_effects values = do
    window_candidate ← column "native_hpa_60" values
    window_baseline ← column "native_hpa_300" values
    prediction_candidate ← column "phpa" values
    prediction_baseline ← column "native_hpa_60" values
    ok (
      compute_delta arithmetic window_candidate window_baseline,
      compute_delta arithmetic prediction_candidate prediction_baseline,
    )
