-- ===== src/Extract/Treatment.antt =====
-- hack/analyze/extract.py, DECISION_MODES and validate_decision_mode: the treatment that a run
-- declares, against its controller.
use predictive_hpa.Prelude.{
  String, Bool, not, ◌||◌, ◌&&◌, Option, some, none, List, [], ◌∷◌, Result, ok, err, ◌>>=◌,
  if◌then◌else◌,
}
use predictive_hpa.Json.{Json, Fields, get_field, has_field, is_str, hashable, Error}

abbrev pub decision_modes : List (String × String)
decision_modes =
    ("native_hpa_300", "none")
    ∷ ("native_hpa_60", "none")
    ∷ ("phpa", "Predictive")
    ∷ ("phpa_current", "Current")
    ∷ ("phpa_hybrid", "Hybrid")
    ∷ []

abbrev pub mode_in : List (String × String) → Json → Option String
mode_in [] controller = none
mode_in ((name, mode) ∷ modes) controller =
    if is_str name controller then some mode else mode_in modes controller

-- `DECISION_MODES.get(controller)`
unfoldable pub expected_mode : Json → Result Error (Option String)
expected_mode controller =
    if hashable controller then ok (mode_in decision_modes controller) else err Error.type_error

-- The last test of `validate_decision_mode`.
unfoldable pub check_mode : Option String → Json → Result Error (Unit {0})
check_mode none mode = err Error.value_error
check_mode (some expected) mode = if is_str expected mode then ok tt else err Error.value_error

-- Whether the run states no treatment and needs none.
unfoldable pub is_mode_free : Fields → Bool
is_mode_free identity =
    not (has_field "decision_mode" identity)
    && not (
        is_str "phpa_current" (get_field "controller" identity)
        || is_str "phpa_hybrid" (get_field "controller" identity))

unfoldable pub validate_decision_mode : Fields → Result Error (Unit {0})
unfolding is_mode_free expected_mode check_mode
validate_decision_mode identity =
    let declared = expected_mode (get_field "controller" identity) >>= λ (expected : Option String).
    check_mode expected (get_field "decision_mode" identity) in
    if is_mode_free identity then ok tt else declared
