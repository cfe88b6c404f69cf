-- ===== src/Aggregate/Loading.antt =====
-- hack/analyze/aggregate.py, load_extracts: which directories under the root become extracts of the
-- report, and what is said of the others. `str_of` is Python's `str` of a parsed value.
use predictive_hpa.Prelude.{
  ℕ, String, Bool, true, false, not, ◌||◌, ◌&&◌, List, [], ◌∷◌, ◌++◌, Result, ok, err, ◌>>=◌, ◌>>◌,
  if◌then◌else◌,
}
use predictive_hpa.Json.{
  File, missing, unreadable, parsed, Json, obj, Fields, field, end, get_field, has_field, is_str,
  get, get_or, or_else, truthy, Error,
}
use predictive_hpa.Aggregate.Pilot.{
  Refusal, raised, caught, is_controlled, validate_pilot_run, validate_pilot_compatibility,
}
use text.Mathlib.Text.{◌==◌ as str_eq, starts_with}
mod Source
mod Report
mod Tests

pub record Directory : Type 0 where
  pub name : String
  pub is_dir : Bool
  pub metadata_file : File
  pub extract_file : File

-- The reasons of the messages "skipped <name>: …".
pub data Reason : Type 0 where
  marked_incomplete no_metadata no_extract metadata_not_mapping extract_not_object : Reason
  metadata_parse_error : String → Reason
  metadata_status : Json → Reason
  extract_parse_error : String → Reason

pub data Outcome : Type 0 where
  ignored : Outcome
  skipped : Reason → Outcome
  loaded : Fields → Outcome

-- `data.setdefault(k, v)`
abbrev pub append_field : String → Json → Fields → Fields
append_field k v end = field k v end
append_field k v (field j w fs) = field j w (append_field k v fs)

abbrev pub set_default : String → Json → Fields → Fields
set_default k v fs = if has_field k fs then fs else append_field k v fs

-- What an extract of an older protocol takes from its metadata.
pub enriched : Fields → Fields → Fields
enriched meta extract = set_default "prediction_variant" (get_field "prediction_variant" meta) (
    set_default "scale_down_stabilization_seconds"
      (get_field "scale_down_stabilization_seconds" meta)
      (set_default "campaign" (get_field "campaign" meta) extract))

-- `(meta.get("result", {}) or {}).get("status")`
unfoldable pub status_of : Fields → Result Error Json
unfolding get get_or truthy
status_of meta = do
  result ← get_or "result" (obj end) (obj meta)
  get "status" (or_else result (obj end))

module _ (str_of : Json → String) where
  pub check_run : Fields → Fields → Result Refusal Outcome
  check_run meta extract =
      if is_controlled meta || is_controlled extract
      then (validate_pilot_run str_of meta extract >> ok (loaded extract))
      else ok (loaded (enriched meta extract))

  pub read_extract : Fields → File → Result Refusal Outcome
  read_extract meta (unreadable e) = ok (skipped (extract_parse_error e))
  read_extract meta (parsed (obj extract)) = check_run meta extract
  read_extract meta (parsed _) = ok (skipped extract_not_object)
  read_extract meta missing = ok (skipped no_extract)

  pub check_status : Fields → File → Json → Result Refusal Outcome
  check_status meta extract status =
      if is_str "success" status
      then read_extract meta extract
      else ok (skipped (metadata_status status))

  pub read_metadata : File → File → Result Refusal Outcome
  read_metadata missing extract = ok (skipped no_metadata)
  read_metadata _ missing = ok (skipped no_extract)
  read_metadata (unreadable e) _ = ok (skipped (metadata_parse_error e))
  read_metadata (parsed (obj meta)) extract = do
    status ← caught (status_of meta)
    check_status meta extract status
  read_metadata (parsed _) _ = ok (skipped metadata_not_mapping)

  -- The body of the loop over the directories.
  pub read_directory : Directory → Result Refusal Outcome
  read_directory d =
      if not d.is_dir
      then ok ignored
      else (if starts_with d.name "_INCOMPLETE_"
          then ok (skipped marked_incomplete)
          else (if str_eq d.name "calibration"
              then ok ignored
              else read_metadata d.metadata_file d.extract_file))

-- `extracts` and `skip_messages`
pub record Loaded : Type 0 where
  pub extracts : List Fields
  pub skip_messages : List (String × Reason)

pub add_outcome : String → Outcome → Loaded → Loaded
add_outcome name ignored l = l
add_outcome name (skipped r) l = record l { skip_messages = l.skip_messages ++ (name, r) ∷ [] }
add_outcome name (loaded e) l = record l { extracts = l.extracts ++ e ∷ [] }

module _ (str_of : Json → String) where
  pub read_directories : List Directory → Loaded → Result Refusal Loaded
  read_directories [] l = ok l
  read_directories (d ∷ ds) l = do
    outcome ← read_directory str_of d
    read_directories ds (add_outcome d.name outcome l)

  -- The argument lists `sorted(root.iterdir())`.
  unfoldable pub load_extracts : List Directory → Result Refusal Loaded
  load_extracts directories = do
    let start : Loaded = record { extracts = []; skip_messages = [] }
    l ← read_directories directories start
    validate_pilot_compatibility str_of l.extracts
    ok l
