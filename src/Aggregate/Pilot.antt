-- ===== src/Aggregate/Pilot.antt =====
-- hack/analyze/aggregate.py, validate_pilot_compatibility and validate_pilot_run: which runs of the
-- controlled protocol may be pooled. `str_of` is Python's `str` of a parsed value.
use predictive_hpa.Prelude.{
  ℕ, String, ◌≡◌, ap, ok-injective, Bool, true, false, not, ◌||◌, ◌&&◌, List, [], ◌∷◌, ◌++◌, map,
  Result, ok, err, ◌>>=◌, ◌>>◌, raise_if, if◌then◌else◌, any_of, length, ◌==◌,
}
use predictive_hpa.Prelude.Dicts.{value_at, update_at, add_text, distinct}
use predictive_hpa.Json.{
  Json, obj, str, Fields, get_field, has_field, is_null, is_str, is_bool, eq, hashable, Error,
}
use predictive_hpa.Extract.Treatment.{validate_decision_mode}
use predictive_hpa.Aggregate.Paths.{get_nested}
use text.Mathlib.Text.{◌==◌ as str_eq}
pub mod Treated
mod Collected
pub mod Pooled
pub mod Run
mod Single
pub mod Accepted
mod Tests

abbrev pub controlled_protocol : String
controlled_protocol = "controlled-pilot-v1"

abbrev pub identity_fields : List String
identity_fields =
    "protocol_version" ∷ "campaign" ∷ "rps" ∷ "pre_allocated_vus" ∷ "max_vus"
    ∷ "benchmark_source_sha256" ∷ "benchmark_config_sha256" ∷ "post_load_tail_seconds" ∷ []

abbrev pub run_identity_fields : List String
run_identity_fields =
    identity_fields
    ++ "experiment_id" ∷ "pattern" ∷ "controller" ∷ "repeat" ∷ "scale_down_stabilization_seconds"
      ∷ "prediction_variant" ∷ []

abbrev pub window_identities : List (String × String)
window_identities =
    ("load_start_time_unix", "measurement.load_onset_time_unix")
    ∷ ("offered_load_end_time_unix", "measurement.offered_load_end_time_unix")
    ∷ ("observation_end_time_unix", "measurement.tail_end_time_unix")
    ∷ []

-- Why runs are refused: the messages of the `ValueError`s, and what an access raises.
pub data Refusal : Type 0 where
  mixed_or_missing : String → Refusal
  missing_decision_mode : Refusal
  invalid_measurement : Refusal
  missing_field : String → Refusal
  mixed_field : Refusal
  protocol_mismatch : Refusal
  missing_in_pair : String → Refusal
  mismatch_in_pair : String → Refusal
  raised : Error → Refusal

abbrev pub caught {ℓ} : {A : Type ℓ} → Result Error A → Result Refusal A
caught (ok a) = ok a
caught (err e) = err (raised e)

pub caught-eq-ok {ℓ} : {A : Type ℓ} (r : Result Error A) (a : A) → caught r ≡ ok a → r ≡ ok a
caught-eq-ok (ok a) b h = ap ok (ok-injective {E = Refusal} a b h)
caught-eq-ok (err e) b h = cc

-- `v is None or v == ""`
abbrev pub is_missing : Json → Bool
is_missing v = is_null v || is_str "" v

abbrev pub is_controlled : Fields → Bool
is_controlled e = is_str controlled_protocol (get_field "protocol_version" e)

abbrev pub Group : Type 0
Group = Json × Json

-- `(item.get("pattern"), item.get("controller"))`
abbrev pub group_of : Fields → Group
group_of e = (get_field "pattern" e, get_field "controller" e)

abbrev pub same_group : Group → Group → Bool
same_group (p, c) (q, d) = eq p q && eq c d

-- `variants`: the texts seen of each field in each group.
abbrev pub Seen : Type 0
Seen = List (String × List String)

abbrev pub Variants : Type 0
Variants = List (Group × Seen)

abbrev pub texts_of : Group → String → Variants → List String
texts_of group name variants = value_at str_eq [] name (value_at same_group [] group variants)

-- `variants[group][field].add(str(item.get(field)))`
pub add_variant : Group → String → String → Variants → Variants
add_variant group name seen =
    update_at same_group [] group (update_at str_eq [] name (add_text seen))

pub check_seen : Seen → Result Refusal (Unit {0})
check_seen [] = ok tt
check_seen ((name, texts) ∷ seen) = do
  raise_if (not (length texts == 1)) mixed_field
  check_seen seen

pub check_variants : Variants → Result Refusal (Unit {0})
check_variants [] = ok tt
check_variants ((group, seen) ∷ variants) = do check_seen seen; check_variants variants

-- What the loop over the extracts asks of each.
pub check_extract : Bool → Fields → Result Refusal (Unit {0})
check_extract explicit_modes e = do
  caught (validate_decision_mode e)
  raise_if (explicit_modes && not (has_field "decision_mode" e)) missing_decision_mode
  raise_if (not (is_bool true (get_nested e "measurement.window_valid"))) invalid_measurement

module _ (str_of : Json → String) where
  -- One round of the loop over the identity fields.
  pub check_identity : List Fields → String → Result Refusal (Unit {0})
  check_identity extracts name =
      raise_if
        (any_of (λ e. is_missing (get_field name e)) extracts
          || not (length (distinct (map (λ e. str_of (get_field name e)) extracts)) == 1))
        (mixed_or_missing name)

  pub check_identities : List Fields → List String → Result Refusal (Unit {0})
  check_identities extracts [] = ok tt
  check_identities extracts (name ∷ names) = do
    check_identity extracts name
    check_identities extracts names

  pub record_variant : Fields → String → Variants → Result Refusal Variants
  record_variant e name variants = do
    raise_if (is_null (get_field name e)) (missing_field name)
    raise_if (not (hashable (get_field "pattern" e) && hashable (get_field "controller" e)))
        (raised Error.type_error)
    ok (add_variant (group_of e) name (str_of (get_field name e)) variants)

  pub collect_variants : Bool → List Fields → Variants → Result Refusal Variants
  collect_variants explicit_modes [] variants = ok variants
  collect_variants explicit_modes (e ∷ es) variants = do
    check_extract explicit_modes e
    with_window ← record_variant e "scale_down_stabilization_seconds" variants
    with_both ← record_variant e "prediction_variant" with_window
    collect_variants explicit_modes es with_both

  -- What the function does once a controlled run is among the extracts.
  pub check_pool : List Fields → Result Refusal (Unit {0})
  check_pool extracts = do
    check_identities extracts identity_fields
    variants ← collect_variants (any_of (has_field "decision_mode") extracts) extracts []
    check_variants variants

  unfoldable pub validate_pilot_compatibility : List Fields → Result Refusal (Unit {0})
  validate_pilot_compatibility extracts =
      if any_of is_controlled extracts then check_pool extracts else ok tt

-- `pairs`: the paths that the metadata and the extract of a run must agree on.
abbrev pub agreed_paths : Bool → List (String × String)
agreed_paths with_mode =
    map (λ f. (f, f)) run_identity_fields
    ++ (if with_mode then ("decision_mode", "decision_mode") ∷ [] else [])
    ++ ("git.commit", "git_commit") ∷ window_identities

-- One round of the loop over the pairs.
pub check_pair : Fields → Fields → String × String → Result Refusal (Unit {0})
check_pair metadata extracted (metadata_path, extracted_path) = do
  raise_if
      (is_missing (get_nested metadata metadata_path)
        || is_missing (get_nested extracted extracted_path))
      (missing_in_pair metadata_path)
  raise_if (not (eq (get_nested metadata metadata_path) (get_nested extracted extracted_path)))
      (mismatch_in_pair metadata_path)

pub check_pairs : Fields → Fields → List (String × String) → Result Refusal (Unit {0})
check_pairs metadata extracted [] = ok tt
check_pairs metadata extracted (pair ∷ pairs) = do
  check_pair metadata extracted pair
  check_pairs metadata extracted pairs

module _ (str_of : Json → String) where
  unfoldable pub validate_pilot_run : Fields → Fields → Result Refusal (Unit {0})
  validate_pilot_run metadata extracted = do
    raise_if (not (is_controlled metadata && is_controlled extracted)) protocol_mismatch
    check_pairs metadata extracted
        (agreed_paths (has_field "decision_mode" metadata || has_field "decision_mode" extracted))
    validate_pilot_compatibility str_of (extracted ∷ [])
