-- ===== src/Latency/Cycles/Tests.antt =====
-- A log of two reconciliations in both formats, the later one first, and a line of another message.
use predictive_hpa.Prelude.{
  String, false, ◌≡◌, refl, Option, some, none, List, [], ◌∷◌, ok, if◌then◌else◌,
}
use predictive_hpa.Prelude.Int.{pos}
use predictive_hpa.Prelude.Sorting.{sort}
use predictive_hpa.Json.{Json, str, int, obj, fields, get, item, eq}
use predictive_hpa.Latency.Values.{Clock, epoch}
use predictive_hpa.Latency.Cycles.{
  Cycle, query, decision, split_tabs, structured_row, body_row, tabbed_row, row_of, read_line,
  add_row, add_event, add_if, collect, timed, controller_cycles,
}
use predictive_hpa.Latency.Cycles.Complete.{IsReadFrom, controller_cycles-IsReadFrom}
use text.Mathlib.Text.{◌==◌ as str_eq}

abbrev clock : Clock
clock = record { timestamp = λ s. none }

abbrev row : String → Json
row id = obj (
    fields (
      ("reconcileID", str id)
      ∷ ("reconcileStartedAt", int (pos (if str_eq id "b" then 30 else 60)))
      ∷ ("msg", str "Queried CPU utilization")
      ∷ []))

abbrev parse_json : String → Option Json
parse_json s =
    if str_eq s "{\"msg\": \"Queried CPU utilization\", …}" then some (row "a") else some (row "b")

abbrev lines : List String
lines =
    "{\"msg\": \"Queried CPU utilization\", …}\n" ∷ "t1\tINFO\tQueried CPU utilization\t{…}\n"
    ∷ "t2\tINFO\tstarting\t{…}\n" ∷ "t3\tINFO\tEvaluated PredictiveHPA scaling decision\t{…}\n" ∷ []

abbrev cycles : List Cycle
cycles =
    record {
      reconcile_id = str "b";
      started_at = int (pos 30);
      rows = (query, row "b") ∷ (decision, row "b") ∷ [];
    }
    ∷ record { reconcile_id = str "a"; started_at = int (pos 60); rows = (query, row "a") ∷ [] }
    ∷ []

read : controller_cycles clock parse_json false lines ≡ ok cycles
unfolding controller_cycles collect read_line row_of structured_row tabbed_row body_row split_tabs
    add_if add_event add_row timed epoch sort get item eq
read = refl

controller_cycles-IsReadFrom_example : IsReadFrom clock parse_json false lines cycles
controller_cycles-IsReadFrom_example =
    controller_cycles-IsReadFrom clock parse_json false lines cycles read
