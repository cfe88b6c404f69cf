-- ===== src/Aggregate/Groups/Tests.antt =====
-- Two repeats of one group, given in the wrong order, and a run of another controller.
use predictive_hpa.Prelude.{String, true, ◌≡◌, refl, List, [], ◌∷◌, ok}
use predictive_hpa.Prelude.Int.{pos}
use predictive_hpa.Float.{of_ℤ}
use predictive_hpa.Json.{Json, null, str, int, Fields, fields, eq, less, truthy}
use predictive_hpa.Aggregate.Paths.{get_nested}
use predictive_hpa.Aggregate.Pilot.{validate_pilot_compatibility}
use predictive_hpa.Aggregate.Groups.{Groups, group_by_pattern_controller, metric_group_is_censored}
use predictive_hpa.Aggregate.Groups.Grouped.{IsGrouping, group_by_pattern_controller-IsGrouping}
use predictive_hpa.Aggregate.Groups.Returns.{group_by_pattern_controller_returns}

abbrev shown : Json → String
shown (str s) = s
shown _ = "other"

abbrev run : String → Json → Fields
run controller nth =
    fields (("pattern", str "step") ∷ ("controller", str controller) ∷ ("repeat", nth) ∷ [])

abbrev runs : List Fields
runs = run "phpa" (int (pos 2)) ∷ run "native_hpa_60" null ∷ run "phpa" (int (pos 1)) ∷ []

abbrev groups : Groups
groups =
    ((str "step", str "phpa"), run "phpa" (int (pos 1)) ∷ run "phpa" (int (pos 2)) ∷ [])
    ∷ ((str "step", str "native_hpa_60"), run "native_hpa_60" null ∷ [])
    ∷ []

grouped : group_by_pattern_controller shown runs ≡ ok groups
unfolding group_by_pattern_controller validate_pilot_compatibility eq less truthy
grouped = refl

group_by_pattern_controller-IsGrouping_example : IsGrouping runs groups
group_by_pattern_controller-IsGrouping_example =
    group_by_pattern_controller-IsGrouping shown runs groups grouped

group_by_pattern_controller_returns_example :
    (gs : Groups) × (group_by_pattern_controller shown runs ≡ ok gs)
unfolding truthy
group_by_pattern_controller_returns_example = group_by_pattern_controller_returns shown runs refl (
  record { key_hashable = refl; repeat = of_ℤ (pos 2); repeat_read = refl },
  (
    record { key_hashable = refl; repeat = of_ℤ (pos 0); repeat_read = refl },
    (record { key_hashable = refl; repeat = of_ℤ (pos 1); repeat_read = refl }, tt),
  ),
)

-- Runs without a scale-down time are censored in that metric.
censored : metric_group_is_censored runs "scaling.first_scaledown_rel_s_after_k6_stop" ≡ true
unfolding metric_group_is_censored get_nested
censored = refl
