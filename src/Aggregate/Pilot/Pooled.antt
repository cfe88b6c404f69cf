-- ===== src/Aggregate/Pilot/Pooled.antt =====
-- hack/analyze/aggregate.py, validate_pilot_compatibility: what the runs that it accepts share.
use predictive_hpa.Prelude.{
  String, ◌⊎◌, true, false, not, ◌≡◌, List, [], ◌∷◌, map, ok, on_ok, on_pass, any_of, length, ◌==◌,
  All, All-map, All-pair, All-unmap, any_of-eq-false, or_false, passed,
}
use predictive_hpa.Prelude.Dicts.{
  value_at, value_at-All, holds, distinct, distinct-All-holds, holds-single, first_text,
}
use predictive_hpa.Json.{Json, Fields, get_field, has_field}
use predictive_hpa.Aggregate.Pilot.{
  identity_fields, is_missing, is_controlled, Group, group_of, same_group, Seen, Variants, texts_of,
  check_identity, check_identities, collect_variants, check_seen, check_variants, check_pool,
  validate_pilot_compatibility,
}
use text.Mathlib.Text.{◌==◌ as str_eq}
use predictive_hpa.Aggregate.Pilot.Treated.{not-false, IsChecked}
use predictive_hpa.Aggregate.Pilot.Collected.{collect_variants-All}

module _ (str_of : Json → String) where
  -- Every run has the field, and `str` gives one text for all of them.
  abbrev pub IsShared : List Fields → String → Type 0
  IsShared es name =
      (s : String) × All
        (λ e. (is_missing (get_field name e) ≡ false) × (str_of (get_field name e) ≡ s)) es

  texts : List Fields → String → List String
  texts es name = distinct (map (λ e. str_of (get_field name e)) es)

  check_identity-IsShared :
      (es : List Fields) (name : String) → check_identity str_of es name ≡ ok tt → IsShared es name
  unfolding check_identity texts
  check_identity-IsShared es name h =
      let (present, one) = or_false _ _ (passed _ _ h) in
      let all = map (λ (e : Fields). str_of (get_field name e)) es in
      (
        first_text (texts es name),
        All-pair (λ e. is_missing (get_field name e) ≡ false)
            (λ e. str_of (get_field name e) ≡ first_text (texts es name)) es
            (any_of-eq-false _ es present)
            (All-unmap (λ s. s ≡ first_text (texts es name)) _ es
              (All-map all (λ s. holds-single s (texts es name) (not-false _ one))
                (distinct-All-holds all))),
      )

  check_identities-IsShared :
      (es : List Fields) (names : List String)
      → check_identities str_of es names ≡ ok tt
      → All (IsShared es) names
  unfolding check_identities
  check_identities-IsShared es [] h = tt
  check_identities-IsShared es (name ∷ names) h =
      on_ok (check_identity str_of es name) _ h λ _ here rest.
        (check_identity-IsShared es name here, check_identities-IsShared es names rest)

  -- The runs of the pool agree as a whole on the identity fields, each passed its checks, and those
  -- of one group (a pattern and a controller that equal themselves, which NaN does not) agree on
  -- their two variants.
  pub record IsPooled (es : List Fields) : Type 0 where
    pub shared : All (IsShared es) identity_fields
    pub checked : All (IsChecked (any_of (has_field "decision_mode") es)) es
    pub of_group : Group → String → String
    pub grouped :
        All
          (λ e.
            same_group (group_of e) (group_of e) ≡ true
            → (n : String) → (n ≡ "scale_down_stabilization_seconds") ⊎ (n ≡ "prediction_variant")
            → str_of (get_field n e) ≡ of_group (group_of e) n)
          es

abbrev IsSingle : List String → Type 0
IsSingle ss = (s : String) → holds s ss ≡ true → s ≡ first_text ss

check_seen-All :
    (seen : Seen) → check_seen seen ≡ ok tt → All (λ (e : String × List String). IsSingle e.1) seen
unfolding check_seen
check_seen-All [] h = tt
check_seen-All ((name, texts) ∷ seen) h =
    on_pass (not (length texts == 1)) _ _ h
      λ one rest. (λ s. holds-single s texts (not-false _ one), check_seen-All seen rest)

check_variants-All :
    (vs : Variants)
    → check_variants vs ≡ ok tt
    → All (λ (g : Group × Seen). All (λ (e : String × List String). IsSingle e.1) g.1) vs
unfolding check_variants
check_variants-All [] h = tt
check_variants-All ((group, seen) ∷ vs) h =
    on_ok (check_seen seen) _ h
      λ _ here rest. (check_seen-All seen here, check_variants-All vs rest)

texts_of-IsSingle :
    (vs : Variants) (g : Group) (name : String)
    → check_variants vs ≡ ok tt
    → IsSingle (texts_of g name vs)
texts_of-IsSingle vs g name h =
    value_at-All str_eq [] IsSingle name (value_at same_group [] g vs) (λ s none_held. cc)
      (value_at-All same_group [] (λ seen. All (λ (e : String × List String). IsSingle e.1) seen) g
        vs tt (check_variants-All vs h))

module _ (str_of : Json → String) where
  check_pool-IsPooled : (es : List Fields) → check_pool str_of es ≡ ok tt → IsPooled str_of es
  unfolding check_pool
  check_pool-IsPooled es h = on_ok (check_identities str_of es identity_fields) _ h λ _ shared h1.
      let explicit = any_of (has_field "decision_mode") es in
      on_ok (collect_variants str_of explicit es []) _ h1 λ vs collected single.
        let all = collect_variants-All str_of explicit es [] vs collected in
        record {
          shared = check_identities-IsShared str_of es identity_fields shared;
          checked = All-map es (λ e c. c.0) all;
          of_group = λ g n. first_text (texts_of g n vs);
          grouped =
              All-map es
                (λ e c r n which. texts_of-IsSingle vs (group_of e) n single _ (c.1 r n which)) all;
        }

  -- When a controlled run is among the runs and the check passes, then all runs share the identity
  -- fields, each has a valid measurement and states the treatment of its controller, or states none
  -- where its controller needs none and no run states one, and the runs of one pattern and controller
  -- share their two variants.
  pub validate_pilot_compatibility-IsPooled :
      (es : List Fields)
      → any_of is_controlled es ≡ true
      → validate_pilot_compatibility str_of es ≡ ok tt
      → IsPooled str_of es
  unfolding validate_pilot_compatibility
  validate_pilot_compatibility-IsPooled es c h = check_pool-IsPooled es (rw c at h)
