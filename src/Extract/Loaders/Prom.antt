-- ===== src/Extract/Loaders/Prom.antt =====
-- hack/analyze/extract.py, load_prom: the samples of three queries.
use Prim.Native.Char.{Char}
use Prim.Native.String as Text
use predictive_hpa.Prelude.{
  ℕ, String, Bool, true, false, not, Option, some, none, List, [], ◌∷◌, ◌++◌, Result, ok, err,
  ◌>>=◌, ◌==◌, if◌then◌else◌,
}
use predictive_hpa.Prelude.Int.{ℤ}
use predictive_hpa.Float.{Float}
use predictive_hpa.Json.{
  File, missing, unreadable, parsed, Json, null, bool, int, float, str, arr, obj, Items, nil, cons,
  Fields, end, field, count_fields, elements, get, get_or, truthy, first_of, iterate, Error,
}
use predictive_hpa.Extract.Loaders.Values.{Parsers, int_of, float_of}
mod Pairs
mod Tests

pub data Warning : Type 0 where
  not_found : Warning
  parse_error : String → Warning

pub record Sample : Type 0 where
  pub time : ℤ
  pub value : Float

-- The two parts of a pair.
pub data Pair : Type 0 where
  pair : Json → Json → Pair
  no_pair : Pair

-- `len(v) != 2` and the indexing: a text has its characters, and a mapping no entries 0 and 1.
abbrev pub pair_of : Json → Result Error Pair
pair_of (arr (cons a (cons b nil))) = ok (pair a b)
pair_of (arr _) = ok no_pair
pair_of (str (Text.◌∷◌ c (Text.◌∷◌ d Text.[]))) =
    ok (pair (str (Text.◌∷◌ c Text.[])) (str (Text.◌∷◌ d Text.[])))
pair_of (str _) = ok no_pair
pair_of (obj fs) = if count_fields fs == 2 then err Error.key_error else ok no_pair
pair_of _ = err Error.type_error

-- `except (ValueError, TypeError): continue`
abbrev pub or_skip : Result Error Sample → Result Error (List Sample)
or_skip (ok s) = ok (s ∷ [])
or_skip (err Error.value_error) = ok []
or_skip (err Error.type_error) = ok []
or_skip (err e) = err e

module _ (p : Parsers) where
  pub convert : Pair → Result Error (List Sample)
  convert no_pair = ok []
  convert (pair t v) = or_skip (do
    time ← int_of p t
    value ← float_of p v
    let s : Sample = record { time = time; value = value }
    ok s)

  pub samples_of : List Json → Result Error (List Sample)
  samples_of [] = ok []
  samples_of (v ∷ vs) = do
    parts ← pair_of v
    found ← convert parts
    rest ← samples_of vs
    ok (found ++ rest)

  pub first_series : Json → Result Error (List Sample)
  first_series block = do
    series ← first_of block
    values ← get_or "values" (arr nil) series
    vs ← iterate values
    samples_of vs

  -- One round of the loop over the queries.
  pub query_series : String → Json → Result Error (List Sample)
  query_series key content = do
    answer ← get_or key (obj end) content
    payload ← get_or "data" (obj end) answer
    block ← get_or "result" (arr nil) payload
    if truthy block then first_series block else ok []

  pub read_series : List String → Json → Result Error (List (String × List Sample))
  read_series [] content = ok []
  read_series (key ∷ names) content = do
    samples ← query_series key content
    rest ← read_series names content
    ok ((key, samples) ∷ rest)

  abbrev pub queries : List String
  queries = "replicas" ∷ "cpu_pct" ∷ "rps_pkt_rate" ∷ []

  unfoldable pub load_prom : File → Result Error (List (String × List Sample) × List Warning)
  load_prom missing = ok ([], not_found ∷ [])
  load_prom (unreadable e) = ok ([], parse_error e ∷ [])
  load_prom (parsed content) = do series ← read_series queries content; ok (series, [])
