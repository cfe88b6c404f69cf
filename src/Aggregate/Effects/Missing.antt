-- ===== src/Aggregate/Effects/Missing.antt =====
-- hack/analyze/aggregate.py, compute_delta and metric_effects: an effect is not available exactly
-- when one of its two groups has no value.
use predictive_hpa.Prelude.{
  String, Bool, true, false, Option, some, none, List, [], ◌∷◌, ◌≡◌, ◌≢◌, ◌⊎◌, ◌↔◌, inl, inr, refl,
  ok, Bool-cases, any_of, arith,
}
use predictive_hpa.Prelude.Int.{pos}
use predictive_hpa.Float
use predictive_hpa.Float.{Float}
use predictive_hpa.Json.{Json, str}
use predictive_hpa.Aggregate.Groups.{Groups, controller_metric_values, metric_values}
use predictive_hpa.Aggregate.Pilot.{same_group}
use predictive_hpa.Prelude.Dicts.{value_at}
use predictive_hpa.Aggregate.Effects.{
  Arithmetic, Delta, not_available, present, delta_of_means, delta_of, compute_delta,
  metric_effects,
}

-- No value is given.
abbrev pub is_given : Option Float → Bool
is_given none = false
is_given (some v) = true

abbrev pub has_value : List (Option Float) → Bool
has_value vs = any_of is_given vs

is_empty_iff : (vs : List (Option Float)) → (present vs ≡ []) ↔ (has_value vs ≡ false)
is_empty_iff [] = (λ _. refl, λ _. refl)
is_empty_iff (none ∷ vs) = is_empty_iff vs
is_empty_iff (some v ∷ vs) = (λ h. cc, λ h. cc)

module _ (a : Arithmetic) where
  delta_of_means-ne-not_available : (x y : Float) → delta_of_means a x y ≢ not_available
  unfolding delta_of_means
  delta_of_means-ne-not_available x y h = elim (Bool-cases (Float.lt_int y (pos 0))) [
    | inl low ↦ let h' = rw low at h in cc
    | inr high ↦ elim (Bool-cases (a.is_tiny y)) [
      | inl tiny ↦ let h' = rw (high, tiny) at h in cc
      | inr large ↦ let h' = rw (high, large) at h in cc
    ]
  ]

  delta_of-eq-not_available :
      (xs ys : List Float) → (delta_of a xs ys ≡ not_available) ↔ ((xs ≡ []) ⊎ (ys ≡ []))
  unfolding delta_of
  delta_of-eq-not_available [] ys = (λ _. inl refl, λ _. refl)
  delta_of-eq-not_available (x ∷ xs) [] = (λ _. inr refl, λ _. refl)
  delta_of-eq-not_available (x ∷ xs) (y ∷ ys) = (
    λ h. absurd (delta_of_means-ne-not_available (a.mean (x ∷ xs)) (a.mean (y ∷ ys)) h),
    λ e. ground arith,
  )

  -- A difference is not available exactly when one of the sides has no value.
  pub compute_delta-eq-not_available :
      (xs ys : List (Option Float))
      → (compute_delta a xs ys ≡ not_available) ↔ ((has_value xs ≡ false) ⊎ (has_value ys ≡ false))
  unfolding compute_delta
  compute_delta-eq-not_available xs ys = (
    λ h. elim ((delta_of-eq-not_available (present xs) (present ys)).0 h) [
      | inl e ↦ inl ((is_empty_iff xs).0 e)
      | inr e ↦ inr ((is_empty_iff ys).0 e)
    ],
    λ e.
        (delta_of-eq-not_available (present xs) (present ys)).1
          (elim e [ inl n ↦ inl ((is_empty_iff xs).1 n) | inr n ↦ inr ((is_empty_iff ys).1 n) ]),
  )

  -- The effects of one pattern and metric.
  module _ (to_float : Json → Option Float) (groups : Groups) (pattern : Json) (path : String) where
    abbrev pub values : String → List (Option Float)
    values controller =
        metric_values to_float (value_at same_group [] (pattern, str controller) groups) path

    -- From any groups the two effects are computed without a missing column: the window effect
    -- compares Native-60 with Native-300, and the prediction effect PHPA-60 with Native-60. An
    -- effect is not available exactly when one of its two groups has no value of the metric.
    pub metric_effects-controller_metric_values :
        (window prediction : Delta) × (metric_effects a
            (controller_metric_values to_float groups pattern path)
          ≡ ok (window, prediction))
        × (window ≡ compute_delta a (values "native_hpa_60") (values "native_hpa_300"))
        × (prediction ≡ compute_delta a (values "phpa") (values "native_hpa_60"))
        × ((window ≡ not_available) ↔ (
            (has_value (values "native_hpa_60") ≡ false)
            ⊎ (has_value (values "native_hpa_300") ≡ false)))
        × ((prediction ≡ not_available)
            ↔ ((has_value (values "phpa") ≡ false) ⊎ (has_value (values "native_hpa_60") ≡ false)))
    unfolding metric_effects controller_metric_values
    metric_effects-controller_metric_values = (
      compute_delta a (values "native_hpa_60") (values "native_hpa_300"),
      compute_delta a (values "phpa") (values "native_hpa_60"),
      refl,
      refl,
      refl,
      compute_delta-eq-not_available (values "native_hpa_60") (values "native_hpa_300"),
      compute_delta-eq-not_available (values "phpa") (values "native_hpa_60"),
    )
