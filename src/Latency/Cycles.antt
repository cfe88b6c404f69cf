-- ===== src/Latency/Cycles.antt =====
-- hack/analyze/latency.py, controller_cycles: the reconciliations that the controller's log tells of,
-- from the lines of the log with their line ends.
use Prim.Native.Char.{Char, code}
use Prim.Native.String as Text
use predictive_hpa.Prelude.{
  ℕ, zero, suc, String, Bool, true, false, not, ◌&&◌, ◌||◌, Option, some, none, List, [], ◌∷◌, ◌++◌,
  Result, ok, err, ◌>>=◌, ◌==◌, if◌then◌else◌, any_of, raise_if, ◌>>◌,
}
use predictive_hpa.Prelude.Sorting.{sort}
use predictive_hpa.Prelude.Texts.{is_prefix, contains}
use predictive_hpa.Float
use predictive_hpa.Float.{Float}
use predictive_hpa.Json.{Json, str, arr, obj, get, item, eq, hashable, Error}
use predictive_hpa.Latency.Values.{Clock, epoch}
use text.Mathlib.Text.{◌==◌ as str_eq}
mod Gathered
pub mod Complete
mod Tests

-- The values of EVENTS.
pub data Event : Type 0 where
  query decision scale finish : Event

abbrev pub same_event : Event → Event → Bool
same_event query query = true
same_event decision decision = true
same_event scale scale = true
same_event finish finish = true
same_event _ _ = false

abbrev pub events : List (String × Event)
events =
    ("Queried CPU utilization", query)
    ∷ ("Evaluated PredictiveHPA scaling decision", decision)
    ∷ ("Scaled Deployment", scale)
    ∷ ("Finished PredictiveHPA reconciliation", finish)
    ∷ []

abbrev pub event_in : List (String × Event) → String → Option Event
event_in [] message = none
event_in ((name, event) ∷ rest) message =
    if str_eq name message then some event else event_in rest message

-- `message in EVENTS` for a parsed message: no mapping or list can be looked up.
abbrev pub event_of : Json → Result Error (Option Event)
event_of (str message) = ok (event_in events message)
event_of (arr _) = err Error.type_error
event_of (obj _) = err Error.type_error
event_of _ = ok none

-- The keys of a cycle, `("reconcileID", "reconcileStartedAt")`, and its rows by event.
pub record Cycle : Type 0 where
  pub reconcile_id : Json
  pub started_at : Json
  pub rows : List (Event × Json)

-- `line.split("\t", n)`
abbrev pub before_first : Char → List String → List String
before_first c [] = (Text.◌∷◌ c Text.[]) ∷ []
before_first c (w ∷ ws) = (Text.◌∷◌ c w) ∷ ws

unfoldable pub split_tabs : ℕ → String → List String
split_tabs zero s = s ∷ []
split_tabs (suc n) Text.[] = "" ∷ []
split_tabs (suc n) (Text.◌∷◌ c s) =
    let next = split_tabs n s in
    let same = split_tabs (suc n) s in if code c == b'\t' then "" ∷ next else before_first c same

-- `line.rstrip("\r\n")`
abbrev pub end_before : Char → String → String
end_before c Text.[] = if code c == b'\r' || code c == b'\n' then "" else Text.◌∷◌ c ""
end_before c (Text.◌∷◌ d s) = Text.◌∷◌ c (Text.◌∷◌ d s)

abbrev pub without_end : String → String
without_end Text.[] = ""
without_end (Text.◌∷◌ c s) = end_before c (without_end s)

-- `line.endswith("\n")`
abbrev pub ends_line : String → Bool
ends_line Text.[] = false
ends_line (Text.◌∷◌ c Text.[]) = code c == b'\n'
ends_line (Text.◌∷◌ c (Text.◌∷◌ d s)) = ends_line (Text.◌∷◌ d s)

-- A row with its event, for the lines that tell of one.
abbrev pub Row : Type 0
Row = Option (Event × Json)

abbrev pub with_row : Json → Option Event → Row
with_row row none = none
with_row row (some event) = some (event, row)

abbrev or_value_error : Option Json → Result Error Json
or_value_error none = err Error.value_error
or_value_error (some v) = ok v

-- `parse_json` is `json.loads`, None where it raises.
module _ (parse_json : String → Option Json) where
  -- The two formats of a line.
  unfoldable pub structured_row : String → Result Error Row
  structured_row line = do
    row ← or_value_error (parse_json line)
    message ← get "msg" row
    event ← event_of message
    ok (with_row row event)

  unfoldable pub body_row : Option Event → String → Result Error Row
  body_row none body = ok none
  body_row (some event) body = do row ← or_value_error (parse_json body); ok (some (event, row))

  unfoldable pub tabbed_row : List String → Result Error Row
  tabbed_row (stamp ∷ level ∷ message ∷ body ∷ []) = body_row (event_in events message) body
  tabbed_row _ = ok none

  unfoldable pub row_of : String → Result Error Row
  row_of line =
      if not (any_of (λ (e : String × Event). contains e.0 line) events)
      then ok none
      else (if is_prefix "{" line then structured_row line else tabbed_row (split_tabs 3 line))

  -- The row of a line, if the unfinished last line is to be read.
  unfoldable pub read_line : Bool → String → Result Error Row
  read_line ignore_incomplete_tail line =
      if ignore_incomplete_tail && not (ends_line line) then ok none else row_of (without_end line)

-- `cycles`: the keys are `(row.get("reconcileID"), start)`.
abbrev pub has_key : Json → Json → Cycle → Bool
has_key id start c = eq c.reconcile_id id && eq c.started_at start

abbrev pub has_event : Event → Cycle → Bool
has_event event c = any_of (λ (r : Event × Json). same_event r.0 event) c.rows

abbrev pub with_event : Event → Json → Cycle → Cycle
with_event event row c = record c { rows = c.rows ++ (event, row) ∷ [] }

-- `cycles.setdefault(key, …)[event] = row`, refused where the cycle has the event.
unfoldable pub add_row : Json → Json → Event → Json → List Cycle → Result Error (List Cycle)
add_row id start event row [] =
    ok (record { reconcile_id = id; started_at = start; rows = (event, row) ∷ [] } ∷ [])
add_row id start event row (c ∷ cs) =
    let later = do rest ← add_row id start event row cs; ok (c ∷ rest)
    in if has_key id start c
      then (raise_if (has_event event c) Error.value_error >> ok (with_event event row c ∷ cs))
      else later

unfoldable pub add_event : Event × Json → List Cycle → Result Error (List Cycle)
add_event (event, row) cycles = do
  start ← item "reconcileStartedAt" row
  id ← get "reconcileID" row
  raise_if (not (hashable id && hashable start)) Error.type_error
  add_row id start event row cycles

unfoldable pub add_if : Row → List Cycle → Result Error (List Cycle)
add_if none cycles = ok cycles
add_if (some r) cycles = add_event r cycles

module _ (parse_json : String → Option Json) where
  unfoldable pub collect : Bool → List String → List Cycle → Result Error (List Cycle)
  collect ignore [] cycles = ok cycles
  collect ignore (line ∷ lines) cycles = do
    row ← read_line parse_json ignore line
    cycles' ← add_if row cycles
    collect ignore lines cycles'

-- `epoch(row["reconcileStartedAt"])` is computed for each cycle before the sort.
abbrev pub Timed : Type 0
Timed = Float × Cycle

abbrev pub less_time : Timed → Timed → Result Error Bool
less_time a b = ok (Float.lt a.0 b.0)

abbrev pub cycles_of : List Timed → List Cycle
cycles_of [] = []
cycles_of (t ∷ ts) = t.1 ∷ cycles_of ts

module _ (clock : Clock) where
  unfoldable pub timed : List Cycle → Result Error (List Timed)
  timed [] = ok []
  timed (c ∷ cs) = do seconds ← epoch clock c.started_at; rest ← timed cs; ok ((seconds, c) ∷ rest)

  unfoldable pub controller_cycles :
      (String → Option Json) → Bool → List String → Result Error (List Cycle)
  controller_cycles parse_json ignore_incomplete_tail lines = do
    cycles ← collect parse_json ignore_incomplete_tail lines []
    keyed ← timed cycles
    sorted ← sort less_time keyed
    ok (cycles_of sorted)
