-- ===== src/Aggregate/Loading/Tests.antt =====
-- A root with a run of an older protocol, one that failed, a calibration probe and a marked run.
use predictive_hpa.Prelude.{String, true, ◌≡◌, refl, List, [], ◌∷◌, ok}
use predictive_hpa.Json.{File, missing, parsed, Json, null, str, obj, fields}
use predictive_hpa.Aggregate.Pilot.{validate_pilot_compatibility}
use predictive_hpa.Aggregate.Loading.{
  Directory, marked_incomplete, metadata_status, status_of, check_run, enriched, read_extract,
  check_status, read_metadata, read_directory, read_directories, add_outcome, Loaded, load_extracts,
}
use predictive_hpa.Aggregate.Loading.Report.{IsReport, load_extracts-IsReport}

abbrev shown : Json → String
shown (str s) = s
shown _ = "other"

abbrev metadata : String → File
metadata status = parsed (
    obj (
      fields (
        ("campaign", str "spring")
        ∷ ("result", obj (fields (("status", str status) ∷ [])))
        ∷ ("prediction_variant", str "holt")
        ∷ [])))

abbrev extract : List (String × Json) → File
extract es = parsed (obj (fields es))

abbrev directory : String → File → File → Directory
directory name m x = record { name = name; is_dir = true; metadata_file = m; extract_file = x }

abbrev root : List Directory
root =
    directory "_INCOMPLETE_a" (metadata "success") (extract [])
    ∷ directory "b_run" (metadata "success") (extract (("campaign", str "old") ∷ []))
    ∷ directory "c_run" (metadata "failed") (extract [])
    ∷ directory "calibration" missing missing
    ∷ []

abbrev report : Loaded
report = record {
  extracts =
      fields (
        ("campaign", str "old")
        ∷ ("scale_down_stabilization_seconds", null)
        ∷ ("prediction_variant", str "holt")
        ∷ [])
      ∷ [];
  skip_messages =
      ("_INCOMPLETE_a", marked_incomplete) ∷ ("c_run", metadata_status (str "failed")) ∷ [];
}

reported : load_extracts shown root ≡ ok report
unfolding load_extracts read_directories read_directory read_metadata status_of check_status
    read_extract check_run enriched add_outcome validate_pilot_compatibility
reported = refl

load_extracts-IsReport_example : IsReport shown root report
load_extracts-IsReport_example = load_extracts-IsReport shown root report reported
