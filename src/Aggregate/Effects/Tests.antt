-- ===== src/Aggregate/Effects/Tests.antt =====
-- The effects of a pattern with runs of two of the three controllers.
use predictive_hpa.Prelude.{false, Option, some, none, List, [], ◌∷◌, ◌≡◌, ◌↔◌, ◌⊎◌, refl, ok}
use predictive_hpa.Prelude.Int.{pos, ◌-ℤ◌}
use predictive_hpa.Float.{Float, finite, nan}
use predictive_hpa.Json.{Json, str, int, fields, eq}
use predictive_hpa.Aggregate.Paths.{get_nested}
use predictive_hpa.Aggregate.Groups.{Groups, controller_metric_values}
use predictive_hpa.Aggregate.Effects.{
  Arithmetic, Delta, not_available, relative, compute_delta, metric_effects,
}
use predictive_hpa.Aggregate.Effects.Missing.{
  has_value, values, metric_effects-controller_metric_values,
}

-- Whole numbers are enough for this run.
abbrev first_of : List Float → Float
first_of [] = nan
first_of (x ∷ xs) = x

abbrev difference : Float → Float → Float
difference (finite n k) (finite m l) = finite (n -ℤ m) 0
difference _ _ = nan

abbrev exact : Arithmetic
exact = record { mean = first_of; minus = difference; percent = λ x y. x; is_tiny = λ x. false }

abbrev to_float : Json → Option Float
to_float (int n) = some (finite n 0)
to_float _ = none

abbrev groups : Groups
groups =
    ((str "step", str "native_hpa_300"), fields (("peak", int (pos 3)) ∷ []) ∷ [])
    ∷ ((str "step", str "native_hpa_60"), fields (("peak", int (pos 5)) ∷ []) ∷ [])
    ∷ []

effects :
    metric_effects exact (controller_metric_values to_float groups (str "step") "peak")
    ≡ ok (relative (finite (pos 2) 0) (finite (pos 2) 0), not_available)
unfolding metric_effects controller_metric_values compute_delta get_nested eq ◌-ℤ◌
effects = refl

metric_effects-controller_metric_values_example :
    (window prediction : Delta) × (metric_effects exact
        (controller_metric_values to_float groups (str "step") "peak")
      ≡ ok (window, prediction))
    × (window
        ≡ compute_delta exact
            (values exact to_float groups (str "step") "peak" "native_hpa_60")
            (values exact to_float groups (str "step") "peak" "native_hpa_300"))
    × (prediction
        ≡ compute_delta exact
            (values exact to_float groups (str "step") "peak" "phpa")
            (values exact to_float groups (str "step") "peak" "native_hpa_60"))
    × ((window ≡ not_available) ↔ (
        (has_value (values exact to_float groups (str "step") "peak" "native_hpa_60") ≡ false)
        ⊎ (has_value (values exact to_float groups (str "step") "peak" "native_hpa_300") ≡ false)))
    × ((prediction ≡ not_available) ↔ (
        (has_value (values exact to_float groups (str "step") "peak" "phpa") ≡ false)
        ⊎ (has_value (values exact to_float groups (str "step") "peak" "native_hpa_60") ≡ false)))
metric_effects-controller_metric_values_example =
    metric_effects-controller_metric_values exact to_float groups (str "step") "peak"
