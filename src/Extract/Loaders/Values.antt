-- ===== src/Extract/Loaders/Values.antt =====
-- hack/analyze/extract.py, parse_iso_to_utc, and the conversions of the loaders, from the values that json and yaml
-- give, and parse_iso_to_utc. What Python's parsers make of a text is a parameter.
use Prim.Native.Char.{code}
use Prim.Native.String as Text
use predictive_hpa.Prelude.{
  String, true, false, not, Option, some, none, List, [], ◌∷◌, Result, ok, err, ◌==◌, if◌then◌else◌,
}
use predictive_hpa.Prelude.Int.{ℤ, pos}
use predictive_hpa.Float
use predictive_hpa.Float.{Float, of_ℤ, IntError}
use predictive_hpa.Json.{
  File, missing, unreadable, parsed, Json, bool, int, float, str, obj, end, truthy, Error,
}

-- `int(s)`, `float(s)` and `datetime.fromisoformat(s)` in microseconds since 1970, None where they
-- raise ValueError. A time so near the ends of the calendar that its change to UTC overflows is
-- not told apart from one that cannot be read.
pub record Parsers : Type 0 where
  pub int_of_text : String → Option ℤ
  pub float_of_text : String → Option Float
  pub from_iso_format : String → Option ℤ

-- A file that is read line by line: it is absent, or these lines could be read, and then an OSError
-- ended the reading or the file did. Its text is taken to be valid UTF-8.
pub data LineFile {ℓ} (A : Type ℓ) : Type ℓ where
  absent : LineFile A
  opened : List A → Option String → LineFile A

-- `warnings.append` of a loader that reads a file.
pub data FileWarning : Type 0 where
  not_found : FileWarning
  read_error : String → FileWarning
  parse_error : String → FileWarning

-- `load_metadata(path)`: what the file holds, or an empty mapping and the reason.
abbrev pub load_metadata : File → Json × List FileWarning
load_metadata missing = (obj end, not_found ∷ [])
load_metadata (unreadable error) = (obj end, parse_error error ∷ [])
load_metadata (parsed content) = (content, [])

abbrev pub or_value_error {ℓ} : {A : Type ℓ} → Option A → Result Error A
or_value_error none = err Error.value_error
or_value_error (some a) = ok a

abbrev pub int_of_float : Result IntError ℤ → Result Error ℤ
int_of_float (ok n) = ok n
int_of_float (err IntError.value_error) = err Error.value_error
int_of_float (err IntError.overflow_error) = err Error.overflow_error

-- `s.replace("Z", "+00:00")`
pub replace_z : String → String
replace_z Text.[] = ""
replace_z (Text.◌∷◌ c s) =
    let rest = replace_z s in if code c == b'Z' then Text.◌++◌ "+00:00" rest else Text.◌∷◌ c rest

module _ (p : Parsers) where
  -- `int(v)`
  unfoldable pub int_of : Json → Result Error ℤ
  int_of (bool false) = ok (pos 0)
  int_of (bool true) = ok (pos 1)
  int_of (int n) = ok n
  int_of (float x) = int_of_float (Float.int x)
  int_of (str s) = or_value_error (p.int_of_text s)
  int_of _ = err Error.type_error

  -- `float(v)`
  unfoldable pub float_of : Json → Result Error Float
  float_of (bool false) = ok (of_ℤ (pos 0))
  float_of (bool true) = ok (of_ℤ (pos 1))
  float_of (int n) = ok (of_ℤ n)
  float_of (float x) = ok x
  float_of (str s) = or_value_error (p.float_of_text s)
  float_of _ = err Error.type_error

  -- A text that is no time gives None; a number has no method `replace`.
  pub time_of_value : Json → Result Error (Option ℤ)
  time_of_value (str s) = ok (p.from_iso_format (replace_z s))
  time_of_value _ = err Error.attribute_error

  unfoldable pub parse_iso_to_utc : Json → Result Error (Option ℤ)
  unfolding time_of_value replace_z
  parse_iso_to_utc v = if not (truthy v) then ok none else time_of_value v
