-- ===== src/Extract/Loaders/ControllerLog/Sourced.antt =====
-- hack/analyze/extract.py, load_controller_log: it never raises, and what its entries are.
use predictive_hpa.Prelude.{String, ◌≡◌, Option, some, none, List, [], ◌∷◌, ok, All, Any}
use predictive_hpa.Prelude.Texts.{before, from, strip}
use predictive_hpa.Json.{str, Fields}
use predictive_hpa.Extract.Loaders.Values.{
  LineFile, absent, opened, FileWarning, read_error, Parsers, parse_iso_to_utc,
}
use predictive_hpa.Extract.Loaders.ControllerLog.{Entry, log_messages, first_message}
use text.Mathlib.Text.{◌==◌ as str_eq}

module _ (p : Parsers) (parse_object : String → Option Fields) where
  -- The entry is what the line says: its message is the first of the four that the line has between
  -- tabs, its time stands before the first tab, and its body from the first brace on.
  pub record IsEntry (e : Entry) (line : String) : Type 0 where
    pub message : first_message log_messages line ≡ some e.log_message
    pub time : parse_iso_to_utc p (str (strip (before b'\t' line))) ≡ ok e.timestamp_utc
    pub body : parse_object (strip (from b'{' line)) ≡ some e.body

  -- The entries are what the lines say; a log whose reading failed has none, and a warning.
  abbrev pub IsLogged : LineFile String → List Entry → List FileWarning → Type 0
  IsLogged absent es ws = (es ≡ []) × (ws ≡ [])
  IsLogged (opened read none) es ws = All (λ e. Any (IsEntry e) read) es × (ws ≡ [])
  IsLogged (opened read (some error)) es ws = (es ≡ []) × (ws ≡ read_error error ∷ [])
