-- ===== src/Aggregate/Pilot/Run.antt =====
-- hack/analyze/aggregate.py, validate_pilot_run: when the metadata and the extract of one run are
-- accepted as a pair.
use predictive_hpa.Prelude.{
  String, Bool, true, false, not, ◌≡◌, refl, ◌||◌, ◌&&◌, ◌↔◌, List, [], ◌∷◌, ok, on_ok, on_pass,
  passed, All, or_false, and_true, arith,
}
use predictive_hpa.Json.{Json, Fields, has_field, eq}
use predictive_hpa.Aggregate.Paths.{get_nested}
use predictive_hpa.Aggregate.Pilot.{
  is_missing, is_controlled, agreed_paths, check_pair, check_pairs, validate_pilot_compatibility,
  validate_pilot_run,
}

-- Both sides state a value, and Python finds the two equal.
pub record IsAgreed (metadata extracted : Fields) (pair : String × String) : Type 0 where
  pub given : is_missing (get_nested metadata pair.0) ≡ false
  pub derived : is_missing (get_nested extracted pair.1) ≡ false
  pub same : eq (get_nested metadata pair.0) (get_nested extracted pair.1) ≡ true

not-false : (b : Bool) → not b ≡ false → b ≡ true
not-false b h = ground arith

check_pair_iff :
    (metadata extracted : Fields) (pair : String × String)
    → (check_pair metadata extracted pair ≡ ok tt) ↔ IsAgreed metadata extracted pair
unfolding check_pair
check_pair_iff metadata extracted (p, q) = (
  λ h. on_pass _ _ _ h λ stated equal.
      let (given, derived) = or_false _ _ stated in
      record { given = given; derived = derived; same = not-false _ (passed _ _ equal) },
  λ a. rw (a.given, a.derived, a.same) refl,
)

check_pairs_iff :
    (metadata extracted : Fields) (pairs : List (String × String))
    → (check_pairs metadata extracted pairs ≡ ok tt) ↔ All (IsAgreed metadata extracted) pairs
unfolding check_pairs
check_pairs_iff metadata extracted [] = (λ _. tt, λ _. refl)
check_pairs_iff metadata extracted (pair ∷ pairs) = (
  λ h.
      on_ok (check_pair metadata extracted pair) _ h
        λ _ here rest. ((check_pair_iff _ _ pair).0 here, (check_pairs_iff _ _ pairs).0 rest),
  λ a. rw ((check_pair_iff _ _ pair).1 a.0) ((check_pairs_iff _ _ pairs).1 a.1),
)

-- The metadata and the extract are of one controlled run.
pub record IsOneRun (metadata extracted : Fields) : Type 0 where
  pub planned : is_controlled metadata ≡ true
  pub extracted_so : is_controlled extracted ≡ true
  pub agreed :
      All
        (IsAgreed metadata extracted)
        (agreed_paths (has_field "decision_mode" metadata || has_field "decision_mode" extracted))

-- A run is accepted exactly when its metadata and its extract are both of the controlled protocol,
-- state equal values for each identity, commit and window boundary, and for the treatment when
-- either names one, and the extract is accepted as a pool of one.
pub validate_pilot_run_iff :
    (str_of : Json → String) (metadata extracted : Fields)
    → (validate_pilot_run str_of metadata extracted ≡ ok tt) ↔ (
        IsOneRun metadata extracted
        × (validate_pilot_compatibility str_of (extracted ∷ []) ≡ ok tt))
unfolding validate_pilot_run
validate_pilot_run_iff str_of m x =
    let pairs = agreed_paths (has_field "decision_mode" m || has_field "decision_mode" x) in
    (
      λ h. on_pass (not (is_controlled m && is_controlled x)) _ _ h λ both h1.
          on_ok (check_pairs m x pairs) _ h1 λ _ same pooled.
            let (of_m, of_x) = and_true _ _ (not-false _ both) in
            (
              record {
                planned = of_m;
                extracted_so = of_x;
                agreed = (check_pairs_iff m x pairs).0 same;
              },
              pooled,
            ),
      λ (one, pooled).
          rw (one.planned, one.extracted_so, (check_pairs_iff m x pairs).1 one.agreed) pooled,
    )
