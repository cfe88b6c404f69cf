-- ===== src/Aggregate/Loading/Source.antt =====
-- hack/analyze/aggregate.py, load_extracts: what the outcome for one directory says of it.
use predictive_hpa.Prelude.{
  String, Bool, true, false, not, ◌≡◌, ◌⊎◌, inl, inr, refl, ◌||◌, ◌&&◌, ok, ◌>>=◌, on_ok,
  ok-injective, Bool-cases, Result,
}
use predictive_hpa.Json.{File, missing, unreadable, parsed, Json, obj, Fields, is_str}
use predictive_hpa.Aggregate.Pilot.{
  Refusal, caught, caught-eq-ok, is_controlled, validate_pilot_run,
}
use predictive_hpa.Aggregate.Pilot.Run.{IsOneRun, validate_pilot_run_iff}
use predictive_hpa.Aggregate.Loading.{
  Directory, Outcome, ignored, skipped, loaded, enriched, status_of, Reason, marked_incomplete,
  no_metadata, no_extract, metadata_not_mapping, extract_not_object, metadata_parse_error,
  metadata_status, extract_parse_error, check_run, read_extract, check_status, read_metadata,
  read_directory,
}
use text.Mathlib.Text.{◌==◌ as str_eq, starts_with}
use mathlib.Core.Path.{subst}

-- The directories of which the report must say something: all but the calibration probes.
abbrev pub is_reported : Directory → Bool
is_reported d = d.is_dir && (starts_with d.name "_INCOMPLETE_" || not (str_eq d.name "calibration"))

-- The extract `e` is that of the run with these two files, whose metadata says that it succeeded; a
-- run of the controlled protocol agrees with its metadata, any other takes what it lacks from there.
pub record IsRun (metadata extracted : File) (e : Fields) : Type 0 where
  pub meta : Fields
  pub extract : Fields
  pub metadata_read : metadata ≡ parsed (obj meta)
  pub extract_read : extracted ≡ parsed (obj extract)
  pub status : Json
  pub status_read : status_of meta ≡ ok status
  pub succeeded : is_str "success" status ≡ true
  pub kept :
      ((is_controlled meta || is_controlled extract ≡ true) × (e ≡ extract) × IsOneRun meta extract)
      ⊎ ((is_controlled meta || is_controlled extract ≡ false) × (e ≡ enriched meta extract))

-- The directories that hold a run of the matrix.
abbrev pub holds_run : Directory → Bool
holds_run d =
    d.is_dir && not (starts_with d.name "_INCOMPLETE_") && not (str_eq d.name "calibration")

-- What is no mapping.
abbrev pub is_mapping : Json → Bool
is_mapping (obj fs) = true
is_mapping _ = false

-- The reason holds of the two files.
abbrev pub IsReason : File → File → Reason → Type 0
IsReason m x marked_incomplete = ⊥
IsReason m x no_metadata = m ≡ missing
IsReason m x no_extract = x ≡ missing
IsReason m x (metadata_parse_error e) = m ≡ unreadable e
IsReason m x metadata_not_mapping = (v : Json) × (m ≡ parsed v) × (is_mapping v ≡ false)
IsReason m x (metadata_status status) =
    (meta : Fields) × (m ≡ parsed (obj meta))
    × (status_of meta ≡ ok status)
    × (is_str "success" status ≡ false)
IsReason m x (extract_parse_error e) = x ≡ unreadable e
IsReason m x extract_not_object = (v : Json) × (x ≡ parsed v) × (is_mapping v ≡ false)

-- What the outcome for a directory with these two files says of them.
abbrev IsRead : File → File → Outcome → Type 0
IsRead m x ignored = ⊥
IsRead m x (skipped r) = IsReason m x r
IsRead m x (loaded e) = IsRun m x e

as-IsRead :
    (m x : File) (o o' : Outcome)
    → ◌≡◌ {A = Result Refusal Outcome} (ok o) (ok o')
    → IsRead m x o
    → IsRead m x o'
as-IsRead m x o o' h r = subst (IsRead m x) (ok-injective {E = Refusal} o o' h) r

abbrev IsKept : Fields → Fields → Fields → Type 0
IsKept meta x e =
    ((is_controlled meta || is_controlled x ≡ true) × (e ≡ x) × IsOneRun meta x)
    ⊎ ((is_controlled meta || is_controlled x ≡ false) × (e ≡ enriched meta x))

IsRun-of :
    (meta x : Fields) (status : Json) (e : Fields)
    → status_of meta ≡ ok status
    → is_str "success" status ≡ true
    → IsKept meta x e
    → IsRun (parsed (obj meta)) (parsed (obj x)) e
IsRun-of meta x status e s good k = record {
  meta = meta;
  extract = x;
  metadata_read = refl;
  extract_read = refl;
  status = status;
  status_read = s;
  succeeded = good;
  kept = k;
}

-- The reason holds of the directory.
abbrev pub Explains : Directory → Reason → Type 0
Explains d r =
    ((r ≡ marked_incomplete) × (starts_with d.name "_INCOMPLETE_" ≡ true))
    ⊎ ((holds_run d ≡ true) × IsReason d.metadata_file d.extract_file r)

-- What the outcome for a directory says of it: what is ignored needs no message, and only the
-- directory of a run is loaded.
abbrev pub IsOf : Directory → Outcome → Type 0
IsOf d ignored = is_reported d ≡ false
IsOf d (skipped r) = (is_reported d ≡ true) × Explains d r
IsOf d (loaded e) =
    (is_reported d ≡ true) × (holds_run d ≡ true) × IsRun d.metadata_file d.extract_file e

read-IsOf :
    (d : Directory) (o : Outcome)
    → d.is_dir ≡ true
    → starts_with d.name "_INCOMPLETE_" ≡ false
    → str_eq d.name "calibration" ≡ false
    → IsRead d.metadata_file d.extract_file o
    → IsOf d o
read-IsOf d ignored p q r h = elim h [ ]
read-IsOf d (skipped _) p q r h = (rw (p, q, r) refl, inr (rw (p, q, r) refl, h))
read-IsOf d (loaded e) p q r h = (rw (p, q, r) refl, rw (p, q, r) refl, h)

as-IsOf :
    (d : Directory) (o o' : Outcome)
    → ◌≡◌ {A = Result Refusal Outcome} (ok o) (ok o')
    → IsOf d o
    → IsOf d o'
as-IsOf d o o' h r = subst (IsOf d) (ok-injective {E = Refusal} o o' h) r

-- The run that an extract comes from.
abbrev pub IsSource : Directory → Fields → Type 0
IsSource d e = (holds_run d ≡ true) × IsRun d.metadata_file d.extract_file e

module _ (str_of : Json → String) where
  check_run-IsRead :
      (meta x : Fields) (status : Json) (o : Outcome)
      → status_of meta ≡ ok status
      → is_str "success" status ≡ true
      → check_run str_of meta x ≡ ok o
      → IsRead (parsed (obj meta)) (parsed (obj x)) o
  unfolding check_run
  check_run-IsRead meta x status o s good h =
      elim (Bool-cases (is_controlled meta || is_controlled x)) [
        | inl c ↦ on_ok (validate_pilot_run str_of meta x) _ (rw c at h) λ _ valid h'.
            as-IsRead _ _ _ o h' (
              IsRun-of meta x status x s good
                (inl (c, refl, ((validate_pilot_run_iff str_of meta x).0 valid).0)))
        | inr c ↦
            as-IsRead _ _ _ o (rw c at h)
              (IsRun-of meta x status (enriched meta x) s good (inr (c, refl)))
      ]

  read_extract-IsRead :
      (meta : Fields) (x : File) (status : Json) (o : Outcome)
      → status_of meta ≡ ok status
      → is_str "success" status ≡ true
      → read_extract str_of meta x ≡ ok o
      → IsRead (parsed (obj meta)) x o
  unfolding read_extract
  read_extract-IsRead meta missing status o s good h = as-IsRead _ _ _ o h refl
  read_extract-IsRead meta (unreadable e) status o s good h = as-IsRead _ _ _ o h refl
  read_extract-IsRead meta (parsed (obj x)) status o s good h =
      check_run-IsRead meta x status o s good h
  read_extract-IsRead meta (parsed v) status o s good h = as-IsRead _ _ _ o h (v, refl, refl)

  checked_status-IsRead :
      (meta : Fields) (x : File) (o : Outcome)
      → (caught (status_of meta) >>= check_status str_of meta x) ≡ ok o
      → IsRead (parsed (obj meta)) x o
  unfolding check_status
  checked_status-IsRead meta x o h = on_ok (caught (status_of meta)) _ h λ status found h'.
      elim (Bool-cases (is_str "success" status)) [
        | inl good ↦
            read_extract-IsRead meta x status o (caught-eq-ok _ status found) good (rw good at h')
        | inr bad ↦
            as-IsRead _ _ (skipped (metadata_status status)) o (rw bad at h')
              (meta, refl, caught-eq-ok _ status found, bad)
      ]

  read_metadata-IsRead : (m x : File) (o : Outcome) → read_metadata str_of m x ≡ ok o → IsRead m x o
  unfolding read_metadata check_status
  read_metadata-IsRead missing x o h = as-IsRead _ _ _ o h refl
  read_metadata-IsRead (unreadable e) missing o h = as-IsRead _ _ _ o h refl
  read_metadata-IsRead (unreadable e) _ o h = as-IsRead _ _ _ o h refl
  read_metadata-IsRead (parsed v) missing o h = as-IsRead _ _ _ o h refl
  read_metadata-IsRead (parsed (obj meta)) (unreadable e) o h =
      checked_status-IsRead meta (unreadable e) o h
  read_metadata-IsRead (parsed (obj meta)) (parsed v) o h =
      checked_status-IsRead meta (parsed v) o h
  read_metadata-IsRead (parsed v) _ o h = as-IsRead _ _ _ o h (v, refl, refl)

  pub read_directory-IsOf :
      (d : Directory) (o : Outcome) → read_directory str_of d ≡ ok o → IsOf d o
  unfolding read_directory
  read_directory-IsOf d o h = elim (Bool-cases d.is_dir) [
    | inr file ↦ as-IsOf d _ o (rw file at h) (rw file refl)
    | inl dir ↦ elim (Bool-cases (starts_with d.name "_INCOMPLETE_")) [
      | inl marked ↦
          as-IsOf d _ o (rw (dir, marked) at h) (rw (dir, marked) refl, inl (refl, marked))
      | inr whole ↦ elim (Bool-cases (str_eq d.name "calibration")) [
        | inl probe ↦ as-IsOf d _ o (rw (dir, whole, probe) at h) (rw (dir, whole, probe) refl)
        | inr run ↦
            read-IsOf d o dir whole run
              (read_metadata-IsRead d.metadata_file d.extract_file o (rw (dir, whole, run) at h))
      ]
    ]
  ]
