-- ===== src/Extract/Loaders/ControllerLog.antt =====
-- hack/analyze/extract.py, load_controller_log: the entries of the controller's log that tell of a
-- reconcile or a scaling.
use predictive_hpa.Prelude.{
  ℕ, String, Bool, true, false, not, Option, some, none, List, [], ◌∷◌, ◌++◌, Result, ok, err,
  ◌>>=◌, if◌then◌else◌,
}
use predictive_hpa.Prelude.Int.{ℤ}
use predictive_hpa.Prelude.Texts.{contains, before, from, strip}
use predictive_hpa.Json.{Json, str, Fields, Error}
use predictive_hpa.Extract.Loaders.Values.{
  Parsers, LineFile, absent, opened, FileWarning, read_error, parse_iso_to_utc,
}
use Prim.Native.String as Text
use text.Mathlib.Text.{◌==◌ as str_eq}
mod Sourced
mod Tests

-- The parsed body of an entry, with what is added to it.
pub record Entry : Type 0 where
  pub body : Fields
  pub timestamp_utc : Option ℤ
  pub log_message : String

abbrev pub log_messages : List String
log_messages = "Scaled Deployment" ∷ "Reconciled PredictiveHPA" ∷ "Reconciled" ∷ "reconciled" ∷ []

-- `f"\t{message}\t"`
abbrev pub delimited : String → String
delimited message = Text.◌++◌ "\t" (Text.◌++◌ message "\t")

-- The first message that the line has between tabs.
abbrev pub first_message : List String → String → Option String
first_message [] line = none
first_message (message ∷ messages) line =
    if contains (delimited message) line then some message else first_message messages line

-- What is returned after the loop: an OSError that ended the reading discards the entries.
abbrev pub logged : Option String → List Entry → List Entry × List FileWarning
logged none entries = (entries, [])
logged (some error) entries = ([], read_error error ∷ [])

-- `parse_object` is `json.loads` of a text that begins with a brace, None where it raises.
module _ (p : Parsers) (parse_object : String → Option Fields) where
  pub entry_of : Option ℤ → String → Option Fields → List Entry
  entry_of ts message none = []
  entry_of ts message (some body) =
      record { body = body; timestamp_utc = ts; log_message = message } ∷ []

  -- The entry of a line with this message, if its time and its body can be found.
  pub read_entry : String → String → Result Error (List Entry)
  read_entry message line =
      let found = do
        ts ← parse_iso_to_utc p (str (strip (before b'\t' line)))
        ok (
            if str_eq (from b'{' line) ""
            then []
            else entry_of ts message (parse_object (strip (from b'{' line))))
      in if str_eq (before b'\t' line) "" then ok [] else found

  pub read_line : Option String → String → Result Error (List Entry)
  read_line none line = ok []
  read_line (some message) line = read_entry message line

  pub log_entries : List String → Result Error (List Entry)
  log_entries [] = ok []
  log_entries (line ∷ read) = do
    entries ← read_line (first_message log_messages line) line
    rest ← log_entries read
    ok (entries ++ rest)

  -- An absent log is no reason for a warning.
  unfoldable pub load_controller_log :
      LineFile String → Result Error (List Entry × List FileWarning)
  load_controller_log absent = ok ([], [])
  load_controller_log (opened read ended) = do entries ← log_entries read; ok (logged ended entries)
