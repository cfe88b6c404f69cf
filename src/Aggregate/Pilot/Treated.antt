-- ===== src/Aggregate/Pilot/Treated.antt =====
-- hack/analyze/aggregate.py, validate_pilot_compatibility: what the loop over the runs checks of each.
use predictive_hpa.Prelude.{
  String, sym, ◌⊎◌, inl, inr, Bool, true, false, not, ◌≡◌, refl, ◌&&◌, ◌||◌, Any, err, Bool-cases,
  Option, List, [], ◌∷◌, ok, on_ok, on_pass, ok-injective, Result, arith, passed,
}
use predictive_hpa.Json.{Json, bool, Fields, get_field, has_field, is_bool, is_str, hashable, Error}
use predictive_hpa.Extract.Treatment.{
  decision_modes, mode_in, expected_mode, check_mode, is_mode_free, validate_decision_mode,
}
use predictive_hpa.Aggregate.Paths.{get_nested}
use predictive_hpa.Aggregate.Pilot.{check_extract, caught, caught-eq-ok}
use mathlib.Core.Path.{subst}

pub not-false : (b : Bool) → not b ≡ false → b ≡ true
not-false b h = ground arith

is_bool-true : (v : Json) → is_bool true v ≡ true → v ≡ bool true
is_bool-true (bool true) h = refl
is_bool-true v h = cc

stated_when : (a b : Bool) → (a && not b) ≡ false → a ≡ true → b ≡ true
stated_when a b h g = ground arith

-- The run states the treatment of its controller, or states none and its controller needs none.
abbrev pub IsTreated : Fields → Type 0
IsTreated e =
    ((has_field "decision_mode" e ≡ false)
      × (is_str "phpa_current" (get_field "controller" e) ≡ false)
      × (is_str "phpa_hybrid" (get_field "controller" e) ≡ false))
    ⊎ Any
        (λ (t : String × String).
          (is_str t.0 (get_field "controller" e) ≡ true)
          × (is_str t.1 (get_field "decision_mode" e) ≡ true))
        decision_modes

not_free : (a b c : Bool) → (not a && not (b || c)) ≡ true → (a ≡ false) × (b ≡ false) × (c ≡ false)
not_free a b c h = (ground arith, ground arith, ground arith)

refused : (P : Type 0) (e : Error) → ◌≡◌ {A = Result Error (Unit {0})} (err e) (ok tt) → P
refused P e h = cc

mode_in-Any :
    (ts : List (String × String)) (controller mode : Json)
    → check_mode (mode_in ts controller) mode ≡ ok tt
    → Any (λ (t : String × String). (is_str t.0 controller ≡ true) × (is_str t.1 mode ≡ true)) ts
unfolding check_mode
mode_in-Any [] controller mode h = cc
mode_in-Any ((name, m) ∷ ts) controller mode h = elim (Bool-cases (is_str name controller)) [
  | inl here ↦ elim (Bool-cases (is_str m mode)) [
    | inl same ↦ inl (here, same)
    | inr other ↦ refused _ Error.value_error (rw (here, other) at h)
  ]
  | inr there ↦ inr (mode_in-Any ts controller mode (rw there at h))
]

no_mode :
    (P : Type 0) (e : Error) (m : Option String)
    → ◌≡◌ {A = Result Error (Option String)} (err e) (ok m)
    → P
no_mode P e m h = cc

expected_mode-mode_in :
    (controller : Json) (expected : Option String)
    → expected_mode controller ≡ ok expected
    → mode_in decision_modes controller ≡ expected
unfolding expected_mode
expected_mode-mode_in controller expected h = elim (Bool-cases (hashable controller)) [
  | inl e ↦ ok-injective {E = Error} _ _ (rw e at h)
  | inr e ↦ no_mode _ Error.type_error expected (rw e at h)
]

validate_decision_mode-IsTreated : (e : Fields) → validate_decision_mode e ≡ ok tt → IsTreated e
unfolding validate_decision_mode is_mode_free
validate_decision_mode-IsTreated e h = elim (Bool-cases (is_mode_free e)) [
  | inl free ↦ inl (not_free _ _ _ free)
  | inr bound ↦
      on_ok (expected_mode (get_field "controller" e)) _ (rw bound at h) λ expected found h'.
        let same = expected_mode-mode_in (get_field "controller" e) expected found in
        inr (
          mode_in-Any decision_modes (get_field "controller" e) (get_field "decision_mode" e)
            (subst (λ m. check_mode m (get_field "decision_mode" e) ≡ ok tt) (sym same) h'))
]

-- What the loop over the runs asks of each: a treatment, which is stated when any run states one,
-- and a valid measurement.
pub record IsChecked (explicit : Bool) (e : Fields) : Type 0 where
  pub treated : IsTreated e
  pub stated : explicit ≡ true → has_field "decision_mode" e ≡ true
  pub measured : get_nested e "measurement.window_valid" ≡ bool true

pub check_extract-IsChecked :
    (explicit : Bool) (e : Fields) → check_extract explicit e ≡ ok tt → IsChecked explicit e
unfolding check_extract
check_extract-IsChecked explicit e h = on_ok (caught (validate_decision_mode e)) _ h λ u treated h1.
    on_pass _ _ _ h1 λ stated h2. record {
      treated = validate_decision_mode-IsTreated e (caught-eq-ok _ tt treated);
      stated = λ given. stated_when explicit (has_field "decision_mode" e) stated given;
      measured = is_bool-true _ (not-false _ (passed _ _ h2));
    }
