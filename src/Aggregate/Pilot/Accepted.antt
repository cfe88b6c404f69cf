-- ===== src/Aggregate/Pilot/Accepted.antt =====
-- hack/analyze/aggregate.py, validate_pilot_run: accepted runs against a table of the paths that
-- identify a run.
use predictive_hpa.Prelude.{
  String, sym, ◌∙◌, map, ◌++◌, Bool, true, false, ◌≡◌, ◌↔◌, refl, ◌||◌, List, [], ◌∷◌, ok, All,
  and_true, any_of, if◌then◌else◌,
}
use predictive_hpa.Json.{Json, bool, Fields, has_field, get_field, is_str, hashable}
use predictive_hpa.Aggregate.Paths.{get_nested}
use predictive_hpa.Aggregate.Pilot.{
  run_identity_fields, is_missing, is_controlled, agreed_paths, check_pool,
  validate_pilot_compatibility, validate_pilot_run,
}
use predictive_hpa.Aggregate.Pilot.Treated.{IsTreated}
use predictive_hpa.Aggregate.Pilot.Single.{check_pool-hashable, single-check_pool}
use predictive_hpa.Aggregate.Pilot.Pooled.{validate_pilot_compatibility-IsPooled}
use predictive_hpa.Aggregate.Pilot.Run.{IsAgreed, validate_pilot_run_iff}
use mathlib.Core.Path.{subst}

-- Where the metadata and where the extract state what identifies a run: its settings, the commit
-- and the window, and the treatment when one of them names one.
abbrev run_paths : Bool → List (String × String)
run_paths with_mode =
    let after =
      ("git.commit", "git_commit")
      ∷ ("load_start_time_unix", "measurement.load_onset_time_unix")
      ∷ ("offered_load_end_time_unix", "measurement.offered_load_end_time_unix")
      ∷ ("observation_end_time_unix", "measurement.tail_end_time_unix")
      ∷ [] in
    ("protocol_version", "protocol_version")
    ∷ ("campaign", "campaign")
    ∷ ("rps", "rps")
    ∷ ("pre_allocated_vus", "pre_allocated_vus")
    ∷ ("max_vus", "max_vus")
    ∷ ("benchmark_source_sha256", "benchmark_source_sha256")
    ∷ ("benchmark_config_sha256", "benchmark_config_sha256")
    ∷ ("post_load_tail_seconds", "post_load_tail_seconds")
    ∷ ("experiment_id", "experiment_id")
    ∷ ("pattern", "pattern")
    ∷ ("controller", "controller")
    ∷ ("repeat", "repeat")
    ∷ ("scale_down_stabilization_seconds", "scale_down_stabilization_seconds")
    ∷ ("prediction_variant", "prediction_variant")
    ∷ (if with_mode then ("decision_mode", "decision_mode") ∷ after else after)

agreed_paths-run_paths : (with_mode : Bool) → agreed_paths with_mode ≡ run_paths with_mode
agreed_paths-run_paths true = refl
agreed_paths-run_paths false = refl

-- The pair is one run of the controlled protocol.
pub record IsAccepted (m x : Fields) : Type 0 where
  pub planned : is_str "controlled-pilot-v1" (get_field "protocol_version" m) ≡ true
  pub extracted_so : is_str "controlled-pilot-v1" (get_field "protocol_version" x) ≡ true
  pub agreed :
      All (IsAgreed m x) (run_paths (has_field "decision_mode" m || has_field "decision_mode" x))
  pub treated : IsTreated x
  pub measured : get_nested x "measurement.window_valid" ≡ bool true
  pub pattern : hashable (get_field "pattern" x) ≡ true
  pub controller : hashable (get_field "controller" x) ≡ true

any_of-single : (x : Fields) → is_controlled x ≡ true → any_of is_controlled (x ∷ []) ≡ true
any_of-single x c = rw c refl

-- Of the paths that stand for themselves, the extract states each.
derived-present :
    (m x : Fields) (names : List String) (rest : List (String × String))
    → All (IsAgreed m x) (map (λ f. (f, f)) names ++ rest)
    → All (λ name. is_missing (get_nested x name) ≡ false) names
derived-present m x [] rest a = tt
derived-present m x (name ∷ names) rest a = (a.0.derived, derived-present m x names rest a.1)

accepted-check_pool :
    (str_of : Json → String) (m x : Fields) → IsAccepted m x → check_pool str_of (x ∷ []) ≡ ok tt
unfolding get_nested
accepted-check_pool str_of m x a =
    let same = subst (λ ps. All (IsAgreed m x) ps) (sym (agreed_paths-run_paths _)) a.agreed in
    single-check_pool str_of x (derived-present m x run_identity_fields _ same) a.treated a.measured
      a.pattern a.controller

module _ (str_of : Json → String) (x : Fields) where
  pooled-eq :
      is_controlled x ≡ true
      → validate_pilot_compatibility str_of (x ∷ []) ≡ check_pool str_of (x ∷ [])
  unfolding validate_pilot_compatibility
  pooled-eq c = rw (any_of-single x c) refl

-- A run is accepted exactly when its metadata and its extract both state the controlled protocol and
-- state equal values at each path that identifies a run, at that of the treatment when one of them
-- names one; the extract states the treatment of its controller, or states none where its
-- controller needs none; its measurement is valid; and its pattern and controller can be hashed.
pub validate_pilot_run-iff_IsAccepted :
    (str_of : Json → String) (metadata extracted : Fields)
    → (validate_pilot_run str_of metadata extracted ≡ ok tt) ↔ IsAccepted metadata extracted
validate_pilot_run-iff_IsAccepted str_of m x = (
  λ h.
      let (one, pooled) = (validate_pilot_run_iff str_of m x).0 h in
      let pool =
        validate_pilot_compatibility-IsPooled str_of (x ∷ []) (any_of-single x one.extracted_so)
          pooled in
      let hashed =
        and_true _ _
          (check_pool-hashable str_of x (sym (pooled-eq str_of x one.extracted_so) ∙ pooled)) in
      record {
        planned = one.planned;
        extracted_so = one.extracted_so;
        agreed = subst (λ ps. All (IsAgreed m x) ps) (agreed_paths-run_paths _) one.agreed;
        treated = pool.checked.0.treated;
        measured = pool.checked.0.measured;
        pattern = hashed.0;
        controller = hashed.1;
      },
  λ a. (validate_pilot_run_iff str_of m x).1 (
    record {
      planned = a.planned;
      extracted_so = a.extracted_so;
      agreed = subst (λ ps. All (IsAgreed m x) ps) (sym (agreed_paths-run_paths _)) a.agreed;
    },
    pooled-eq str_of x a.extracted_so ∙ accepted-check_pool str_of m x a,
  ),
)
