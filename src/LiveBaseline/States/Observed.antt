-- ===== src/LiveBaseline/States/Observed.antt =====
-- hack/analyze/live_baseline.py, validate_evidence: what the observed states that it accepts agree on.
use predictive_hpa.Prelude.{
  String, true, false, not, ◌≡◌, ◌⊎◌, inl, inr, ap, ◌∙◌, List, [], ◌∷◌, ◌++◌, ok, on_ok,
  if◌then◌else◌, All, Bool-cases,
}
use predictive_hpa.Json.{
  Json, obj, end, Fields, is_null, is_str, get, get_or, get_or-at, get-at, item, at, eq,
}
use predictive_hpa.LiveBaseline.Refusal.{caught, caught-eq-ok}
use predictive_hpa.LiveBaseline.Checks.{
  on_refuse, on_last, differ-eq-false, test-eq-false, item_at, item-under, item_at-under, get-under,
  not-false,
}
use predictive_hpa.LiveBaseline.States.{
  check_part, check_resource, check_target, check_state, check_states,
}

-- The resource of an observed state: it may be missing only where the read failed, and has the
-- identifier of the gate where it is not.
abbrev pub HasUid : Fields → Json → String → String → Type 0
HasUid gate row resource key =
    ((is_null (at ("response" ∷ resource ∷ []) row) ≡ true)
      × (is_str "success" (at ("status" ∷ []) row) ≡ false))
    ⊎ (eq (at ("response" ∷ resource ∷ "metadata" ∷ "uid" ∷ []) row) (at (key ∷ []) (obj gate))
        ≡ true)

-- The deployment that the autoscaler scales is the one that was read, where the read succeeded.
abbrev pub HasTarget : Json → Type 0
HasTarget row =
    (is_str "success" (at ("status" ∷ []) row) ≡ false)
    ⊎ ((is_str "Deployment" (at ("response" ∷ "phpa" ∷ "spec" ∷ "scaleTargetRef" ∷ "kind" ∷ []) row)
          ≡ true)
        × (eq (at ("response" ∷ "phpa" ∷ "spec" ∷ "scaleTargetRef" ∷ "name" ∷ []) row)
              (at ("response" ∷ "deployment" ∷ "metadata" ∷ "name" ∷ []) row)
            ≡ true))

pub record IsOfGate (gate : Fields) (row : Json) : Type 0 where
  pub deployment : HasUid gate row "deployment" "target_uid"
  pub autoscaler : HasUid gate row "phpa" "phpa_uid"
  pub target : HasTarget row

-- A row tells of another thing, or is of the gate's resources.
abbrev pub IsStateOf : Fields → Json → Type 0
IsStateOf gate row = (is_str "state" (at ("kind" ∷ []) row) ≡ false) ⊎ IsOfGate gate row

check_part-same :
    (plan gate : Fields) (resource key : String) (part : Json)
    → check_part plan gate resource key part ≡ ok tt
    → eq (at ("metadata" ∷ "uid" ∷ []) part) (at (key ∷ []) (obj gate)) ≡ true
unfolding check_part
check_part-same plan gate resource key part h =
    on_refuse _ _ _ h
      λ passed rest. differ-eq-false ("metadata" ∷ "uid" ∷ []) (key ∷ []) part (obj gate) passed.0

module _ (plan gate : Fields) (row : Json) where
  check_resource-HasUid :
      (resource key : String)
      → check_resource plan gate row resource key ≡ ok tt
      → HasUid gate row resource key
  unfolding check_resource
  check_resource-HasUid resource key h =
      on_ok (caught (get_or "response" (obj end) row)) _ h λ response r h1.
        on_ok (caught (get resource response)) _ h1 λ part p h2.
          let response_read = caught-eq-ok (get_or "response" (obj end) row) response r in
          let part_read = caught-eq-ok (get resource response) part p in
          let there = λ (ks : List String).
            get_or-at "response" row response resource ks response_read
            ∙ get-under resource ks response part part_read in
          elim (Bool-cases (is_null part)) [
            | inl e ↦ inl (
              ap is_null (there []) ∙ e,
              test-eq-false (is_str "success") (get "status" row) ((on_last _ _ (rw e at h2)).0)
                  λ v read no. ap (is_str "success") (get-at "status" row v read) ∙ no,
            )
            | inr e ↦ inr (
                ap (λ v. eq v (at (key ∷ []) (obj gate))) (there ("metadata" ∷ "uid" ∷ []))
                ∙ check_part-same plan gate resource key part (rw e at h2))
          ]

  check_target-HasTarget : check_target row ≡ ok tt → HasTarget row
  unfolding check_target
  check_target-HasTarget h = on_ok (caught (item "response" row)) _ h λ response r h1.
      on_ok (caught (item_at ("phpa" ∷ "spec" ∷ "scaleTargetRef" ∷ []) response)) _ h1
        λ target t h2.
          let passed = on_last _ _ h2 in
          test-eq-false (λ v. not (is_str "Deployment" v)) (item "kind" target) passed.0
            λ kind read yes.
              let keys : List String = "phpa" ∷ "spec" ∷ "scaleTargetRef" ∷ [] in
              let read_response = caught-eq-ok (item "response" row) response r in
              let under = λ (ks : List String).
                item-under "response" (keys ++ ks) row response read_response
                ∙ item_at-under keys ks response target
                    (caught-eq-ok (item_at keys response) target t) in
              let named : List String = "deployment" ∷ "metadata" ∷ "name" ∷ [] in
              inr (
                ap (is_str "Deployment")
                      (under ("kind" ∷ []) ∙ item-under "kind" [] target kind read)
                    ∙ not-false (is_str "Deployment" kind) yes,
                ap (λ v. eq v (at ("response" ∷ named) row)) (under ("name" ∷ []))
                    ∙ (ap (eq (at ("name" ∷ []) target))
                          (item-under "response" named row response read_response)
                        ∙ differ-eq-false ("name" ∷ []) named target response passed.1.0),
              )

  check_state-IsOfGate : check_state plan gate row ≡ ok tt → IsOfGate gate row
  unfolding check_state
  check_state-IsOfGate h =
      on_ok (check_resource plan gate row "deployment" "target_uid") _ h λ _ first h1.
        on_ok (check_resource plan gate row "phpa" "phpa_uid") _ h1 λ _ second h2.
          on_ok (caught (get "status" row)) _ h2 λ status s h3.
            let same =
              ap (is_str "success")
                (get-at "status" row status (caught-eq-ok (get "status" row) status s)) in
            record {
              deployment = check_resource-HasUid "deployment" "target_uid" first;
              autoscaler = check_resource-HasUid "phpa" "phpa_uid" second;
              target = elim (Bool-cases (is_str "success" status)) [
                | inl e ↦ check_target-HasTarget (rw e at h3)
                | inr e ↦ inl (same ∙ e)
              ];
            }

pub check_states-All :
    (plan gate : Fields) (rows : List Json)
    → check_states plan gate rows ≡ ok tt
    → All (IsStateOf gate) rows
unfolding check_states
check_states-All plan gate [] h = tt
check_states-All plan gate (row ∷ rows) h = on_ok (caught (get "kind" row)) _ h λ kind k h1.
    on_ok (if is_str "state" kind then check_state plan gate row else ok tt) _ h1 λ _ here rest.
      let same =
        ap (is_str "state") (get-at "kind" row kind (caught-eq-ok (get "kind" row) kind k)) in
      (
        elim (Bool-cases (is_str "state" kind)) [
          | inl e ↦ inr (check_state-IsOfGate plan gate row (rw e at here))
          | inr e ↦ inl (same ∙ e)
        ],
        check_states-All plan gate rows rest,
      )
