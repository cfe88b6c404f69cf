-- ===== src/LiveBaseline/States.antt =====
-- hack/analyze/live_baseline.py, validate_evidence: that the observed states are of the deployment and
-- the autoscaler of the gate.
use Prim.Native.String as Text
use predictive_hpa.Prelude.{
  String, Bool, true, false, not, List, [], ◌∷◌, Result, ok, err, ◌>>=◌, ◌>>◌, if◌then◌else◌,
}
use predictive_hpa.Json.{Json, obj, Fields, end, is_null, is_str, get, get_or, item, Error}
use predictive_hpa.LiveBaseline.Refusal.{Refusal, caught}
use predictive_hpa.LiveBaseline.Checks.{refuse_if, item_at, test, differ}
use text.Mathlib.Text.{◌==◌ as str_eq}
pub mod Observed

-- `any(row.get("kind") == "state" and row.get("status") == "success" for row in rows)`
abbrev pub observed : List Json → Result Error Bool
observed [] = ok false
observed (row ∷ rows) =
    let rest = observed rows in
    do
      kind ← get "kind" row
      status ← get "status" row
      if is_str "state" kind then (if is_str "success" status then ok true else rest) else rest

-- A resource that the response has: `uid` is the identifier that it must have.
unfoldable pub check_part : Fields → Fields → String → String → Json → Result Refusal (Unit {0})
check_part plan gate resource key part = do
  refuse_if (differ (item_at ("metadata" ∷ "uid" ∷ []) part) (item_at (key ∷ []) (obj gate)) ∷ [])
      (Text.◌++◌ resource " UID disagrees with gate")
  refuse_if
      ((if str_eq resource "phpa"
          then differ (do spec ← item "spec" part; get "decisionMode" spec)
              (item "decision_mode" (obj plan))
          else ok false)
        ∷ [])
      "PHPA decision mode disagrees with plan"

unfoldable pub check_resource : Fields → Fields → Json → String → String → Result Refusal (Unit {0})
check_resource plan gate row resource key = do
  response ← caught (get_or "response" (obj end) row)
  part ← caught (get resource response)
  if is_null part
      then refuse_if (test (is_str "success") (get "status" row) ∷ [])
          (Text.◌++◌ "Successful state lacks " resource)
      else check_part plan gate resource key part

-- The target that the autoscaler names is the deployment that was read with it.
unfoldable pub check_target : Json → Result Refusal (Unit {0})
check_target row = do
  response ← caught (item "response" row)
  target ← caught (item_at ("phpa" ∷ "spec" ∷ "scaleTargetRef" ∷ []) response)
  refuse_if
      (test (λ v. not (is_str "Deployment" v)) (item "kind" target)
        ∷ differ (item_at ("name" ∷ []) target)
            (item_at ("deployment" ∷ "metadata" ∷ "name" ∷ []) response)
        ∷ [])
      "PHPA target disagrees with sampled Deployment"

unfoldable pub check_state : Fields → Fields → Json → Result Refusal (Unit {0})
check_state plan gate row = do
  check_resource plan gate row "deployment" "target_uid"
  check_resource plan gate row "phpa" "phpa_uid"
  status ← caught (get "status" row)
  if is_str "success" status then check_target row else ok tt

unfoldable pub check_states : Fields → Fields → List Json → Result Refusal (Unit {0})
check_states plan gate [] = ok tt
check_states plan gate (row ∷ rows) = do
  kind ← caught (get "kind" row)
  (if is_str "state" kind then check_state plan gate row else ok tt)
  check_states plan gate rows
