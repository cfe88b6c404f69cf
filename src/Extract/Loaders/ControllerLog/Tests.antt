-- ===== src/Extract/Loaders/ControllerLog/Tests.antt =====
-- A log with a reconcile, a line of another message and one whose body is broken.
use predictive_hpa.Prelude.{String, ◌≡◌, refl, Option, some, none, List, [], ◌∷◌, ok, if◌then◌else◌}
use predictive_hpa.Prelude.Int.{pos}
use predictive_hpa.Json.{str, Fields, fields, truthy}
use predictive_hpa.Extract.Loaders.Values.{opened, read_error, Parsers, parse_iso_to_utc}
use predictive_hpa.Extract.Loaders.ControllerLog.{
  entry_of, read_entry, read_line, log_entries, load_controller_log,
}
use text.Mathlib.Text.{◌==◌ as str_eq}

abbrev parsers : Parsers
parsers = record {
  int_of_text = λ s. none;
  float_of_text = λ s. none;
  from_iso_format = λ s. if str_eq s "2026-05-26T17:01:45+00:00" then some (pos 45) else none;
}

abbrev body : Fields
body = fields (("scaled", str "true") ∷ [])

abbrev parse_object : String → Option Fields
parse_object s = if str_eq s "{\"scaled\": \"true\"}" then some body else none

abbrev lines : List String
lines =
    "2026-05-26T17:01:45Z\tINFO\tReconciled\t{\"scaled\": \"true\"}\n"
    ∷ "2026-05-26T17:01:45Z\tINFO\tstarting\t{}\n"
    ∷ "2026-05-26T17:01:46Z\tINFO\treconciled\t{\"scaled\": \n" ∷ []

entries :
    load_controller_log parsers parse_object (opened lines none)
    ≡ ok
        (record { body = body; timestamp_utc = some (pos 45); log_message = "Reconciled" } ∷ [], [])
unfolding load_controller_log log_entries read_line read_entry entry_of parse_iso_to_utc truthy
entries = refl

-- What was read before an error is discarded.
failed :
    load_controller_log parsers parse_object (opened lines (some "disk"))
    ≡ ok ([], read_error "disk" ∷ [])
unfolding load_controller_log log_entries read_line read_entry entry_of parse_iso_to_utc truthy
failed = refl
