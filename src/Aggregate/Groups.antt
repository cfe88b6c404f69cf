-- ===== src/Aggregate/Groups.antt =====
-- hack/analyze/aggregate.py, group_by_pattern_controller, metric_values, metric_group_is_censored
-- and controller_metric_values: the groups of the report and the values it compares.
use predictive_hpa.Prelude.{
  ℕ, String, Bool, true, false, not, ◌||◌, ◌&&◌, Option, some, none, List, [], ◌∷◌, ◌++◌, map,
  Result, ok, err, ◌>>=◌, ◌>>◌, raise_if, if◌then◌else◌, any_of,
}
use predictive_hpa.Prelude.Dicts.{update_at, value_at}
use predictive_hpa.Prelude.Int.{pos}
use predictive_hpa.Prelude.Sorting.{sort}
use predictive_hpa.Float.{Float}
use predictive_hpa.Json.{
  Json, str, int, null, Fields, get_field, or_else, truthy, hashable, less, is_null, is_bool, Error,
}
use predictive_hpa.Aggregate.Paths.{get_nested}
use predictive_hpa.Aggregate.Pilot.{
  Refusal, raised, caught, Group, same_group, validate_pilot_compatibility,
}
use text.Mathlib.Text.{◌==◌ as str_eq}
mod Grouped
mod Returns
mod Tests

abbrev pub Groups : Type 0
Groups = List (Group × List Fields)

-- `(e.get("pattern") or "?", e.get("controller") or "?")`
abbrev pub key_of : Fields → Group
key_of e = (or_else (get_field "pattern" e) (str "?"), or_else (get_field "controller" e) (str "?"))

-- `x.get("repeat") or 0`
abbrev pub repeat_of : Fields → Json
repeat_of e = or_else (get_field "repeat" e) (int (pos 0))

abbrev pub less_repeat : Fields → Fields → Result Error Bool
less_repeat a b = less (repeat_of a) (repeat_of b)

-- `groups[key].append(e)`
unfoldable pub add_extract : Fields → Groups → Groups
unfolding update_at
add_extract e groups = update_at same_group [] (key_of e) (λ es. es ++ e ∷ []) groups

unfoldable pub gather : List Fields → Groups → Result Refusal Groups
unfolding add_extract
gather [] groups = ok groups
gather (e ∷ es) groups = do
  raise_if (not (hashable (key_of e).0 && hashable (key_of e).1)) (raised Error.type_error)
  gather es (add_extract e groups)

-- The loop that sorts each group.
unfoldable pub sort_groups : Groups → Result Refusal Groups
unfolding sort
sort_groups [] = ok []
sort_groups ((key, es) ∷ groups) = do
  sorted ← caught (sort less_repeat es)
  rest ← sort_groups groups
  ok ((key, sorted) ∷ rest)

-- `str_of` is Python's `str` of a parsed value.
unfoldable pub group_by_pattern_controller : (Json → String) → List Fields → Result Refusal Groups
unfolding gather sort_groups
group_by_pattern_controller str_of extracts = do
  validate_pilot_compatibility str_of extracts
  groups ← gather extracts []
  sort_groups groups

abbrev pub censored_metric_paths : List String
censored_metric_paths =
    "scaling.first_scaledown_rel_s_after_k6_stop" ∷ "scaling.full_scaledown_rel_s_after_k6_stop"
    ∷ "resource.waste_window_s" ∷ []

-- Whether a run ended above the minimum.
abbrev pub not_completed : Fields → Bool
not_completed e = is_bool false (get_nested e "scaling.scaledown_completed")

unfoldable pub metric_group_is_censored : List Fields → String → Bool
metric_group_is_censored extracts path =
    if not (any_of (str_eq path) censored_metric_paths)
    then false
    else (if str_eq path "scaling.first_scaledown_rel_s_after_k6_stop"
        then any_of (λ e. is_null (get_nested e path)) extracts
        else (if str_eq path "scaling.full_scaledown_rel_s_after_k6_stop"
            then any_of (λ e. is_null (get_nested e path) || not_completed e) extracts
            else any_of not_completed extracts))

abbrev pub controller_columns : List (String × String)
controller_columns =
    ("native_hpa_300", "Native-300") ∷ ("native_hpa_60", "Native-60") ∷ ("phpa", "PHPA-60") ∷ []

-- `to_float` is `_to_float`: Python's `float` of a parsed value, None where it raises.
module _ (to_float : Json → Option Float) where
  unfoldable pub metric_values : List Fields → String → List (Option Float)
  metric_values extracts path = map (λ e. to_float (get_nested e path)) extracts

  -- The values of each controller column, a missing group being empty.
  unfoldable pub controller_metric_values :
      Groups → Json → String → List (String × List (Option Float))
  unfolding metric_values
  controller_metric_values groups pattern path =
      map
        (λ (c : String × String).
          (c.0, metric_values (value_at same_group [] (pattern, str c.0) groups) path))
        controller_columns
