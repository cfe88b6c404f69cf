-- ===== src/Aggregate/Pilot/Collected.antt =====
-- hack/analyze/aggregate.py, validate_pilot_compatibility: the texts of the variants that are collected
-- for each pattern and controller.
use predictive_hpa.Prelude.{
  String, sym, ◌⊎◌, inl, inr, Bool, true, not, ◌≡◌, ◌&&◌, List, [], ◌∷◌, ok, on_ok, on_pass,
  ok-injective, All,
}
use predictive_hpa.Prelude.Dicts.{
  value_at, update_at, update_at-keeps, value_at-update_at_self, add_text, holds, holds-add_text,
  holds-add_text_self,
}
use predictive_hpa.Json.{Json, Fields, get_field, is_null, hashable}
use predictive_hpa.Aggregate.Pilot.{
  Refusal, Group, group_of, same_group, Variants, texts_of, add_variant, record_variant,
  check_extract, collect_variants,
}
use text.Mathlib.Text.{◌==◌ as str_eq}
use text.Mathlib.TextPositions.{eq_refl}
use mathlib.Core.Path.{subst}
use predictive_hpa.Aggregate.Pilot.Treated.{IsChecked, check_extract-IsChecked}

module _ (str_of : Json → String) where
  -- A text that was seen stays.
  add_variant-keeps :
      (s t name n : String) (k g : Group) (vs : Variants)
      → holds s (texts_of k name vs) ≡ true
      → holds s (texts_of k name (add_variant g n t vs)) ≡ true
  unfolding add_variant
  add_variant-keeps s t name n k g vs h =
      update_at-keeps same_group [] (λ seen. holds s (value_at str_eq [] name seen) ≡ true) _
        (λ seen.
          update_at-keeps str_eq [] (λ ss. holds s ss ≡ true) _ (λ ss. holds-add_text s t ss) name n
            seen)
        k g vs h

  add_variant-holds :
      (s name : String) (g : Group) (vs : Variants)
      → same_group g g ≡ true
      → holds s (texts_of g name (add_variant g name s vs)) ≡ true
  unfolding add_variant
  add_variant-holds s name g vs r =
      rw (value_at-update_at_self same_group [] (update_at str_eq [] name (add_text s)) g vs r) (
        rw
          (value_at-update_at_self str_eq [] (add_text s) name (value_at same_group [] g vs)
            (eq_refl name))
          (holds-add_text_self s _))

  record_variant-eq :
      (e : Fields) (name : String) (vs vs' : Variants)
      → record_variant str_of e name vs ≡ ok vs'
      → add_variant (group_of e) name (str_of (get_field name e)) vs ≡ vs'
  unfolding record_variant
  record_variant-eq e name vs vs' h = on_pass (is_null (get_field name e)) _ _ h λ _ h'.
      on_pass (not (hashable (get_field "pattern" e) && hashable (get_field "controller" e))) _ _ h'
        λ _ h''. ok-injective {E = Refusal} _ _ h''

  record_variant-keeps :
      (s name n : String) (k : Group) (e : Fields) (vs vs' : Variants)
      → record_variant str_of e n vs ≡ ok vs'
      → holds s (texts_of k name vs) ≡ true
      → holds s (texts_of k name vs') ≡ true
  record_variant-keeps s name n k e vs vs' h old =
      subst (λ m. holds s (texts_of k name m) ≡ true) (record_variant-eq e n vs vs' h)
        (add_variant-keeps s _ name n k (group_of e) vs old)

  record_variant-holds :
      (n : String) (e : Fields) (vs vs' : Variants)
      → record_variant str_of e n vs ≡ ok vs'
      → same_group (group_of e) (group_of e) ≡ true
      → holds (str_of (get_field n e)) (texts_of (group_of e) n vs') ≡ true
  record_variant-holds n e vs vs' h r =
      subst (λ m. holds (str_of (get_field n e)) (texts_of (group_of e) n m) ≡ true)
        (record_variant-eq e n vs vs' h) (add_variant-holds _ n (group_of e) vs r)

  record_variants-holds :
      (e : Fields) (n : String) (vs vs1 vs2 : Variants)
      → record_variant str_of e "scale_down_stabilization_seconds" vs ≡ ok vs1
      → record_variant str_of e "prediction_variant" vs1 ≡ ok vs2
      → same_group (group_of e) (group_of e) ≡ true
      → (n ≡ "scale_down_stabilization_seconds") ⊎ (n ≡ "prediction_variant")
      → holds (str_of (get_field n e)) (texts_of (group_of e) n vs2) ≡ true
  record_variants-holds e n vs vs1 vs2 r1 r2 r (inl is_window) =
      subst (λ m. holds (str_of (get_field m e)) (texts_of (group_of e) m vs2) ≡ true)
        (sym is_window)
        (record_variant-keeps _ _ _ (group_of e) e vs1 vs2 r2
          (record_variant-holds _ e vs vs1 r1 r))
  record_variants-holds e n vs vs1 vs2 r1 r2 r (inr is_variant) =
      subst (λ m. holds (str_of (get_field m e)) (texts_of (group_of e) m vs2) ≡ true)
        (sym is_variant) (record_variant-holds _ e vs1 vs2 r2 r)

  collect_variants-keeps :
      (s name : String) (k : Group) (explicit : Bool) (es : List Fields) (vs vs' : Variants)
      → collect_variants str_of explicit es vs ≡ ok vs'
      → holds s (texts_of k name vs) ≡ true
      → holds s (texts_of k name vs') ≡ true
  unfolding collect_variants
  collect_variants-keeps s name k explicit [] vs vs' h old =
      subst (λ m. holds s (texts_of k name m) ≡ true) (ok-injective {E = Refusal} _ _ h) old
  collect_variants-keeps s name k explicit (e ∷ es) vs vs' h old =
      on_ok (check_extract explicit e) _ h λ _ _ h1.
        on_ok (record_variant str_of e "scale_down_stabilization_seconds" vs) _ h1 λ vs1 r1 h2.
          on_ok (record_variant str_of e "prediction_variant" vs1) _ h2 λ vs2 r2 h3.
            collect_variants-keeps s name k explicit es vs2 vs' h3 (
              record_variant-keeps s name _ k e vs1 vs2 r2
                (record_variant-keeps s name _ k e vs vs1 r1 old))

  -- The run passed the checks of the loop, and its two variants are among the texts of its group.
  abbrev pub IsCollected : Bool → Variants → Fields → Type 0
  IsCollected explicit vs e =
      IsChecked explicit e
      × (same_group (group_of e) (group_of e) ≡ true
          → (n : String) → (n ≡ "scale_down_stabilization_seconds") ⊎ (n ≡ "prediction_variant")
          → holds (str_of (get_field n e)) (texts_of (group_of e) n vs) ≡ true)

  pub collect_variants-All :
      (explicit : Bool) (es : List Fields) (vs vs' : Variants)
      → collect_variants str_of explicit es vs ≡ ok vs'
      → All (IsCollected explicit vs') es
  unfolding collect_variants
  collect_variants-All explicit [] vs vs' h = tt
  collect_variants-All explicit (e ∷ es) vs vs' h =
      on_ok (check_extract explicit e) _ h λ _ checked h1.
        on_ok (record_variant str_of e "scale_down_stabilization_seconds" vs) _ h1 λ vs1 r1 h2.
          on_ok (record_variant str_of e "prediction_variant" vs1) _ h2 λ vs2 r2 h3. (
            (
              check_extract-IsChecked explicit e checked,
              λ r n which.
                  collect_variants-keeps (str_of (get_field n e)) n (group_of e) explicit es vs2 vs'
                    h3 (record_variants-holds e n vs vs1 vs2 r1 r2 r which),
            ),
            collect_variants-All explicit es vs2 vs' h3,
          )
