-- ===== src/LiveBaseline/Samples/Tests.antt =====
-- Two observed states, of which the second failed, and a row of another kind.
use predictive_hpa.Prelude.{String, ◌≡◌, refl, some, none, List, [], ◌∷◌, ok, err}
use predictive_hpa.Prelude.Int.{ℤ, pos}
use predictive_hpa.Float.{of_ℤ}
use predictive_hpa.Json.{Json, str, int, obj, fields, get, get_or, item}
use predictive_hpa.Latency.Values.{Clock, epoch}
use predictive_hpa.LiveBaseline.Refusal.{refused}
use predictive_hpa.LiveBaseline.Samples.{
  Reading, requested, field_value, response_value, read_interval, read_state, readings, any_overlap,
  samples,
}

abbrev clock : Clock
clock = record { timestamp = λ s. none }

abbrev state : String → ℤ → ℤ → Json
state status start finish = obj (
    fields (
      ("kind", str "state")
      ∷ ("status", str status)
      ∷ ("request_started_at", int start)
      ∷ ("request_finished_at", int finish)
      ∷ (
        "response",
        obj (
            fields (
              (
                "deployment",
                obj (fields (("spec", obj (fields (("replicas", int (pos 3)) ∷ []))) ∷ [])),
              )
              ∷ [])),
      )
      ∷ []))

abbrev rows : List Json
rows =
    state "success" (pos 10) (pos 12)
    ∷ obj (fields (("kind", str "pods") ∷ []))
    ∷ state "error" (pos 12) (pos 15)
    ∷ []

abbrev found : List Reading
found =
    record { start = of_ℤ (pos 10); finish = of_ℤ (pos 12); value = some 3 }
    ∷ record { start = of_ℤ (pos 12); finish = of_ℤ (pos 15); value = none }
    ∷ []

read : samples clock rows "deployment" requested ≡ ok found
unfolding samples readings read_state read_interval response_value field_value any_overlap epoch get
    get_or item
read = refl

-- The second request begins before the first one ends.
overlapping :
    samples clock
      (state "success" (pos 10) (pos 12) ∷ state "success" (pos 11) (pos 15) ∷ [])
      "deployment"
      requested
    ≡ err (
        refused
          "Observer resource reads must be ordered without duplicate or overlapping intervals")
unfolding samples readings read_state read_interval response_value field_value any_overlap epoch get
    get_or item
overlapping = refl
