-- ===== src/Aggregate/Pilot/Tests.antt =====
-- Runs of the controlled protocol at concrete values: which pairs and pools are accepted.
use predictive_hpa.Prelude.{String, Bool, true, false, ◌≡◌, ◌↔◌, refl, List, [], ◌∷◌, ◌++◌, ok, err}
use predictive_hpa.Prelude.Dicts.{update_at}
use predictive_hpa.Prelude.Int.{pos}
use predictive_hpa.Json.{Json, null, bool, int, str, obj, Fields, fields, eq}
use predictive_hpa.Extract.Treatment.{validate_decision_mode}
use predictive_hpa.Aggregate.Paths.{get_nested}
use predictive_hpa.Aggregate.Pilot.{
  mixed_field, mismatch_in_pair, invalid_measurement, check_identity, check_identities, add_variant,
  record_variant, check_extract, collect_variants, check_seen, check_variants, check_pool,
  check_pair, check_pairs, validate_pilot_compatibility, validate_pilot_run,
}
use predictive_hpa.Aggregate.Pilot.Pooled.{IsPooled, validate_pilot_compatibility-IsPooled}
use predictive_hpa.Aggregate.Pilot.Accepted.{IsAccepted, validate_pilot_run-iff_IsAccepted}

-- `str` as far as these runs need it.
abbrev shown : Json → String
shown (str s) = s
shown null = "None"
shown (bool true) = "True"
shown (bool false) = "False"
shown _ = "number"

abbrev identity : List (String × Json)
identity =
    ("protocol_version", str "controlled-pilot-v1")
    ∷ ("campaign", str "pilot")
    ∷ ("rps", int (pos 40))
    ∷ ("pre_allocated_vus", int (pos 50))
    ∷ ("max_vus", int (pos 100))
    ∷ ("benchmark_source_sha256", str "a1")
    ∷ ("benchmark_config_sha256", str "b2")
    ∷ ("post_load_tail_seconds", int (pos 360))
    ∷ ("experiment_id", str "step_1")
    ∷ ("pattern", str "step")
    ∷ ("controller", str "phpa")
    ∷ ("repeat", int (pos 1))
    ∷ ("scale_down_stabilization_seconds", int (pos 60))
    ∷ []

abbrev measurement : Bool → Json
measurement valid = obj (
    fields (
      ("window_valid", bool valid)
      ∷ ("load_onset_time_unix", int (pos 1000))
      ∷ ("offered_load_end_time_unix", int (pos 1180))
      ∷ ("tail_end_time_unix", int (pos 1540))
      ∷ []))

abbrev extract_of : String → Bool → Fields
extract_of variant valid = fields (
    identity
    ++ ("prediction_variant", str variant)
      ∷ ("git_commit", str "c3")
      ∷ ("measurement", measurement valid)
      ∷ [])

abbrev metadata_of : String → Fields
metadata_of variant = fields (
    identity
    ++ ("prediction_variant", str variant)
      ∷ ("git", obj (fields (("commit", str "c3") ∷ [])))
      ∷ ("load_start_time_unix", int (pos 1000))
      ∷ ("offered_load_end_time_unix", int (pos 1180))
      ∷ ("observation_end_time_unix", int (pos 1540))
      ∷ [])

accepted : validate_pilot_run shown (metadata_of "v1") (extract_of "v1" true) ≡ ok tt
unfolding validate_pilot_run check_pairs check_pair get_nested validate_pilot_compatibility
    check_pool check_identities check_identity collect_variants check_extract validate_decision_mode
    record_variant add_variant update_at eq check_variants check_seen
accepted = refl

-- A stale extract is refused.
stale :
    validate_pilot_run shown (metadata_of "v2") (extract_of "v1" true)
    ≡ err (mismatch_in_pair "prediction_variant")
unfolding validate_pilot_run check_pairs check_pair get_nested eq
stale = refl

pool : List Fields
pool = extract_of "v1" true ∷ extract_of "v1" true ∷ []

pooled : validate_pilot_compatibility shown pool ≡ ok tt
unfolding pool validate_pilot_compatibility check_pool check_identities check_identity
    collect_variants check_extract validate_decision_mode record_variant add_variant update_at eq
    check_variants check_seen get_nested
pooled = refl

mixed :
    validate_pilot_compatibility shown (extract_of "v1" true ∷ extract_of "v2" true ∷ [])
    ≡ err mixed_field
unfolding validate_pilot_compatibility check_pool check_identities check_identity collect_variants
    check_extract validate_decision_mode record_variant add_variant update_at eq check_variants
    check_seen get_nested
mixed = refl

invalid : validate_pilot_compatibility shown (extract_of "v1" false ∷ []) ≡ err invalid_measurement
unfolding validate_pilot_compatibility check_pool check_identities check_identity collect_variants
    check_extract validate_decision_mode get_nested
invalid = refl

validate_pilot_compatibility-IsPooled_example : IsPooled shown pool
unfolding pool
validate_pilot_compatibility-IsPooled_example =
    validate_pilot_compatibility-IsPooled shown pool refl pooled

validate_pilot_run-iff_IsAccepted_example :
    (validate_pilot_run shown (metadata_of "v1") (extract_of "v1" true) ≡ ok tt)
    ↔ IsAccepted (metadata_of "v1") (extract_of "v1" true)
validate_pilot_run-iff_IsAccepted_example =
    validate_pilot_run-iff_IsAccepted shown (metadata_of "v1") (extract_of "v1" true)
