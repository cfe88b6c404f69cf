-- ===== src/Aggregate/Pilot/Single.antt =====
-- hack/analyze/aggregate.py, validate_pilot_compatibility: when a pool of one controlled run is
-- accepted.
use predictive_hpa.Prelude.{
  String, not, inl, inr, Bool, true, false, ◌≡◌, refl, ◌||◌, ◌&&◌, Bool-cases, List, [], ◌∷◌, ok,
  on_ok, on_pass, All, or_false, any_of, arith, some,
}
use predictive_hpa.Json.{
  Json, str, bool, Fields, has_field, get_field, is_str, is_null, is_str-eq, hashable,
}
use predictive_hpa.Extract.Treatment.{
  decision_modes, mode_in, expected_mode, check_mode, is_mode_free, validate_decision_mode,
}
use predictive_hpa.Aggregate.Paths.{get_nested}
use predictive_hpa.Aggregate.Pilot.{
  identity_fields, run_identity_fields, is_missing, Group, group_of, same_group, Variants,
  check_extract, add_variant, check_variants, check_seen, check_identity, check_identities,
  record_variant, collect_variants, check_pool,
}
use predictive_hpa.Prelude.Dicts.{update_at}
use predictive_hpa.Aggregate.Pilot.Treated.{not-false, IsTreated}

stated-validate_decision_mode :
    (e : Fields) (name mode : String)
    → mode_in decision_modes (str name) ≡ some mode
    → is_str name (get_field "controller" e) ≡ true
    → is_str mode (get_field "decision_mode" e) ≡ true
    → validate_decision_mode e ≡ ok tt
unfolding validate_decision_mode expected_mode check_mode
stated-validate_decision_mode e name mode found c d = elim (Bool-cases (is_mode_free e)) [
  | inl free ↦ rw free refl
  | inr bound ↦ rw (bound, is_str-eq name (get_field "controller" e) c, found, d) refl
]

treated-validate_decision_mode : (e : Fields) → IsTreated e → validate_decision_mode e ≡ ok tt
unfolding validate_decision_mode is_mode_free
treated-validate_decision_mode e (inl (a, b, c)) = rw (a, b, c) refl
treated-validate_decision_mode e (inr (inl (c, d))) =
    stated-validate_decision_mode e "native_hpa_300" "none" refl c d
treated-validate_decision_mode e (inr (inr (inl (c, d)))) =
    stated-validate_decision_mode e "native_hpa_60" "none" refl c d
treated-validate_decision_mode e (inr (inr (inr (inl (c, d))))) =
    stated-validate_decision_mode e "phpa" "Predictive" refl c d
treated-validate_decision_mode e (inr (inr (inr (inr (inl (c, d)))))) =
    stated-validate_decision_mode e "phpa_current" "Current" refl c d
treated-validate_decision_mode e (inr (inr (inr (inr (inr (inl (c, d))))))) =
    stated-validate_decision_mode e "phpa_hybrid" "Hybrid" refl c d
treated-validate_decision_mode e (inr (inr (inr (inr (inr (inr none_left)))))) = elim none_left [ ]

explained : (b : Bool) → ((b || false) && not b) ≡ false
explained b = ground arith

accepted-check_extract :
    (x : Fields)
    → IsTreated x
    → get_nested x "measurement.window_valid" ≡ bool true
    → check_extract (any_of (has_field "decision_mode") (x ∷ [])) x ≡ ok tt
unfolding check_extract
accepted-check_extract x treated measured =
    rw (treated-validate_decision_mode x treated, explained (has_field "decision_mode" x), measured)
      refl

-- One run has one text of each variant, whether or not its group equals itself.
single-check_variants :
    (g : Group) (s t : String)
    → check_variants (
        add_variant g "prediction_variant" t
          (add_variant g "scale_down_stabilization_seconds" s []))
      ≡ ok tt
unfolding check_variants check_seen add_variant update_at
single-check_variants g s t = elim (Bool-cases (same_group g g)) [
  | inl e ↦ rw e refl
  | inr e ↦ rw e refl
]

module _ (str_of : Json → String) (x : Fields) where
  present-check_identity :
      (name : String)
      → is_missing (get_field name x) ≡ false
      → check_identity str_of (x ∷ []) name ≡ ok tt
  unfolding check_identity
  present-check_identity name h = rw h refl

  present-check_identities :
      (names : List String)
      → All (λ name. is_missing (get_field name x) ≡ false) names
      → check_identities str_of (x ∷ []) names ≡ ok tt
  unfolding check_identities
  present-check_identities [] a = refl
  present-check_identities (name ∷ names) a =
      rw (present-check_identity name a.0) (present-check_identities names a.1)

  accepted-record_variant :
      (name : String) (vs : Variants)
      → is_missing (get_field name x) ≡ false
      → hashable (get_field "pattern" x) ≡ true
      → hashable (get_field "controller" x) ≡ true
      → record_variant str_of x name vs
        ≡ ok (add_variant (group_of x) name (str_of (get_field name x)) vs)
  unfolding record_variant
  accepted-record_variant name vs h p c =
      rw ((or_false (is_null (get_field name x)) (is_str "" (get_field name x)) h).0, p, c) refl

  record_variant-hashable :
      (name : String) (vs vs' : Variants)
      → record_variant str_of x name vs ≡ ok vs'
      → (hashable (get_field "pattern" x) && hashable (get_field "controller" x)) ≡ true
  unfolding record_variant
  record_variant-hashable name vs vs' h = on_pass (is_null (get_field name x)) _ _ h λ _ h1.
      on_pass (not (hashable (get_field "pattern" x) && hashable (get_field "controller" x))) _ _ h1
        λ hashed _. not-false _ hashed

  pub check_pool-hashable :
      check_pool str_of (x ∷ []) ≡ ok tt
      → (hashable (get_field "pattern" x) && hashable (get_field "controller" x)) ≡ true
  unfolding check_pool collect_variants
  check_pool-hashable h = on_ok (check_identities str_of (x ∷ []) identity_fields) _ h λ _ _ h1.
      on_ok (collect_variants str_of (any_of (has_field "decision_mode") (x ∷ [])) (x ∷ []) []) _ h1
        λ vs collected _.
          on_ok (check_extract (any_of (has_field "decision_mode") (x ∷ [])) x) _ collected
            λ _ _ h2.
              on_ok (record_variant str_of x "scale_down_stabilization_seconds" []) _ h2
                λ vs1 r _. record_variant-hashable "scale_down_stabilization_seconds" [] vs1 r

  -- A run with a value for each field, a treatment and a valid measurement is accepted alone.
  pub single-check_pool :
      All (λ name. is_missing (get_field name x) ≡ false) run_identity_fields
      → IsTreated x
      → get_nested x "measurement.window_valid" ≡ bool true
      → hashable (get_field "pattern" x) ≡ true
      → hashable (get_field "controller" x) ≡ true
      → check_pool str_of (x ∷ []) ≡ ok tt
  unfolding check_pool collect_variants
  single-check_pool
        (v, (c, (r, (u, (n, (b, (d, (l, (_, (_, (_, (_, (window, (variant, _)))))))))))))) treated
        measured p k =
      rw
        (
          present-check_identities identity_fields (v, (c, (r, (u, (n, (b, (d, (l, tt)))))))),
          accepted-check_extract x treated measured,
          accepted-record_variant "scale_down_stabilization_seconds" [] window p k,
          accepted-record_variant "prediction_variant"
              (add_variant (group_of x) "scale_down_stabilization_seconds"
                (str_of (get_field "scale_down_stabilization_seconds" x)) [])
              variant p k,
        )
        (single-check_variants (group_of x) _ _)
