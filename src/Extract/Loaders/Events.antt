-- ===== src/Extract/Loaders/Events.antt =====
-- hack/analyze/extract.py, load_events: the SuccessfulRescale events of the experiment, in order of
-- time, with the size that each message states.
use Prim.Native.Char.{Char, code}
use Prim.Native.String as Text
use predictive_hpa.Prelude.{
  ℕ, zero, suc, String, Bool, true, false, not, ◌&&◌, ◌||◌, Option, some, none, List, [], ◌∷◌, ◌++◌,
  Result, ok, err, ◌>>=◌, ◌==◌, leb, if◌then◌else◌,
}
use predictive_hpa.Prelude.Int.{ℤ, ltb_ℤ}
use predictive_hpa.Prelude.Sorting.{sort}
use predictive_hpa.Prelude.Texts.{is_prefix, strip}
use predictive_hpa.Json.{
  File, missing, unreadable, parsed, Json, null, bool, int, float, str, arr, obj, Items, nil, cons,
  end, field, elements, get, get_or, get_field, has_field, or_else, is_str, Error,
}
use predictive_hpa.Extract.Loaders.Values.{Parsers, parse_iso_to_utc}
mod Sorted
mod Message
mod Tests

pub data Warning : Type 0 where
  not_found : Warning
  parse_error : String → Warning

-- The entries of `rescales`.
pub record Rescale : Type 0 where
  pub timestamp_utc : ℤ
  pub new_size : Option ℤ
  pub message : String

-- `s.split(";", 1)[0]`
abbrev pub before_semicolon : String → String
before_semicolon Text.[] = ""
before_semicolon (Text.◌∷◌ c s) =
    let rest = before_semicolon s in if code c == b';' then "" else Text.◌∷◌ c rest

abbrev pub new_size_mark : String
new_size_mark = "New size:"

-- `s.replace("New size:", "")`, with the number of characters still to be dropped.
abbrev pub without_mark : ℕ → String → String
without_mark n Text.[] = ""
without_mark zero (Text.◌∷◌ c s) =
    let dropped = without_mark 8 s in
    let kept = without_mark zero s in
    if is_prefix new_size_mark (Text.◌∷◌ c s) then dropped else Text.◌∷◌ c kept
without_mark (suc n) (Text.◌∷◌ c s) = without_mark n s

-- The size that a message states, None where it states none or no integer.
unfoldable pub new_size_of : (String → Option ℤ) → String → Option ℤ
new_size_of int_of_text message =
    if is_prefix new_size_mark message
    then int_of_text (strip (without_mark 0 (before_semicolon message)))
    else none

module _ (p : Parsers) where
  -- `ev.get("message", "")` with the calls on it, which are those of a text.
  pub rescale_of : ℤ → Json → Result Error Rescale
  rescale_of ts (str message) = ok (record {
    timestamp_utc = ts;
    new_size = new_size_of p.int_of_text message;
    message = message;
  })
  rescale_of ts _ = err Error.attribute_error

  -- An event whose time cannot be read is passed over.
  pub event_of : Option ℤ → Json → Result Error (List Rescale)
  event_of none event = ok []
  event_of (some ts) event = do
    message ← get_or "message" (str "") event
    r ← rescale_of ts message
    ok (r ∷ [])

  pub read_event : Json → Result Error (List Rescale)
  read_event event = do
    last ← get "lastTimestamp" event
    first ← get "firstTimestamp" event
    ts ← parse_iso_to_utc p (or_else last first)
    event_of ts event

  pub add_event : Json → Result Error (List Rescale)
  add_event event = do
    reason ← get "reason" event
    if is_str "SuccessfulRescale" reason then read_event event else ok []

  pub rescales_of : List Json → Result Error (List Rescale)
  rescales_of [] = ok []
  rescales_of (event ∷ events) = do
    found ← add_event event
    rest ← rescales_of events
    ok (found ++ rest)

-- The iteration over `data.get("items", [])`: the characters of a text and the keys of a mapping
-- have no method `get`.
abbrev pub iterate : Json → Result Error (List Json)
iterate (arr vs) = ok (elements vs)
iterate (str s) = if is_prefix s "" then ok [] else err Error.attribute_error
iterate (obj end) = ok []
iterate (obj (field _ _ _)) = err Error.attribute_error
iterate _ = err Error.type_error

abbrev pub items_of : Json → Result Error (List Json)
items_of (obj fs) = iterate (if has_field "items" fs then get_field "items" fs else arr nil)
items_of _ = ok []

abbrev pub less_time : Rescale → Rescale → Result Error Bool
less_time a b = ok (ltb_ℤ a.timestamp_utc b.timestamp_utc)

module _ (p : Parsers) where
  pub read_events : Json → Result Error (List Rescale)
  read_events v = do events ← items_of v; rescales ← rescales_of p events; sort less_time rescales

  unfoldable pub load_events : File → Result Error (List Rescale × List Warning)
  load_events missing = ok ([], not_found ∷ [])
  load_events (unreadable e) = ok ([], parse_error e ∷ [])
  load_events (parsed v) = do rescales ← read_events v; ok (rescales, [])
