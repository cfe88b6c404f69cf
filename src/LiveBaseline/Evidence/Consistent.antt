-- ===== src/LiveBaseline/Evidence/Consistent.antt =====
-- hack/analyze/live_baseline.py, validate_evidence: what the evidence that it accepts agrees on.
use predictive_hpa.Prelude.{
  true, false, not, ◌&&◌, ◌≡◌, ◌⊎◌, inl, inr, sym, ap, ◌∙◌, List, [], ◌∷◌, Result, ok, on_ok,
  ok-injective, if◌then◌else◌, All, Bool-cases, and_true,
}
use predictive_hpa.Prelude.Inversion.{◌>>=◌, returned, not_raised}
use predictive_hpa.Float
use predictive_hpa.Float.{Float}
use predictive_hpa.Json.{
  Json, obj, Fields, is_null, is_str, truthy, get, get-at, item, item-at, at, eq, Error,
}
use predictive_hpa.Latency.Values.{Clock, Arithmetic, epoch, le}
use predictive_hpa.Latency.Cycles.{Cycle, Event, decision, scale}
use predictive_hpa.LiveBaseline.Refusal.{Refusal, caught, caught-eq-ok}
use predictive_hpa.LiveBaseline.Checks.{
  not_refused, on_refuse, on_last, differ-eq-false, test-eq-false, not-false,
}
use predictive_hpa.LiveBaseline.Marker.{Actual, time_at}
use predictive_hpa.LiveBaseline.Identity.{check_identity}
use predictive_hpa.LiveBaseline.States.{check_states}
use predictive_hpa.LiveBaseline.States.Observed.{IsStateOf, check_states-All}
use predictive_hpa.LiveBaseline.Anchor.{event_row}
use predictive_hpa.LiveBaseline.Anchor.Matched.{IsAnchored, anchor_start-IsAnchored}
use predictive_hpa.LiveBaseline.Evidence.{
  wrong_mode, check_mode, check_modes, log_start, validate_evidence,
}
use mathlib.Core.Path.{subst}

-- The row of an event, where a cycle has one, names the mode of the plan.
abbrev pub HasMode : Fields → Cycle → Event → Type 0
HasMode plan c event =
    (truthy (event_row event c) ≡ false)
    ⊎ (eq (at ("decisionMode" ∷ []) (event_row event c)) (at ("decision_mode" ∷ []) (obj plan))
        ≡ true)

wrong_mode-HasMode :
    (plan : Fields) (c : Cycle) (event : Event)
    → wrong_mode plan c event ≡ ok false
    → HasMode plan c event
wrong_mode-HasMode plan c event h = elim (Bool-cases (truthy (event_row event c))) [
  | inr e ↦ inl e
  | inl e ↦ inr (
      differ-eq-false ("decisionMode" ∷ []) ("decision_mode" ∷ []) (event_row event c) (obj plan)
        (rw e at h))
]

check_mode-HasMode :
    (plan : Fields) (c : Cycle)
    → check_mode plan c ≡ ok tt
    → HasMode plan c decision × HasMode plan c scale
unfolding check_mode
check_mode-HasMode plan c h = on_refuse _ _ _ h λ first rest. (
  wrong_mode-HasMode plan c decision first.0,
  wrong_mode-HasMode plan c scale ((on_last _ _ rest).0),
)

module _ (clock : Clock) where
  -- A cycle begins before the start, or names the mode of the plan.
  abbrev pub AgreesFrom : Fields → Float → Cycle → Type 0
  AgreesFrom plan start c =
      (started : Float) × (epoch clock c.started_at ≡ ok started)
      × ((Float.lt started start ≡ true) ⊎ (HasMode plan c decision × HasMode plan c scale))

  check_modes-All :
      (plan : Fields) (start : Float) (cs : List Cycle)
      → check_modes clock plan start cs ≡ ok tt
      → All (AgreesFrom plan start) cs
  unfolding check_modes
  check_modes-All plan start [] h = tt
  check_modes-All plan start (c ∷ cs) h = on_ok (caught (epoch clock c.started_at)) _ h λ s e h1.
      on_ok (if Float.lt s start then ok tt else check_mode plan c) _ h1 λ _ here rest.
        let read = caught-eq-ok (epoch clock c.started_at) s e in
        (
          (
            s,
            read,
            elim (Bool-cases (Float.lt s start)) [
              | inl early ↦ inl early
              | inr late ↦ inr (check_mode-HasMode plan c (rw late at here))
            ],
          ),
          check_modes-All plan start cs rest,
        )

-- Where the part of the log begins that counts: with the controller when the run started cold, and
-- with the gate's anchor when it was warm.
abbrev pub StartsAt : Clock → Fields → Fields → List Cycle → Float → Float → Type 0
StartsAt clock plan gate cycles controller start =
    ((is_str "warm" (at ("startup_mode" ∷ []) (obj plan)) ≡ false)
      × (is_null (at ("anchor" ∷ []) (obj gate)) ≡ true)
      × (start ≡ controller))
    ⊎ ((is_str "warm" (at ("startup_mode" ∷ []) (obj plan)) ≡ true)
        × IsAnchored clock gate cycles start)

-- The times, the observed states and the controller's log agree with the gate and the plan.
pub record IsConsistent (clock : Clock) (plan gate : Fields) (rows : List Json)
    (cycles : List Cycle) (actual : Actual) (start : Float) : Type 0 where
  pub release : Float
  pub controller : Float
  pub released : time_at clock "released_at" (obj gate) ≡ ok release
  pub started : time_at clock "controller_started_at" (obj plan) ≡ ok controller
  pub ordered : (le controller release ≡ true) × (le release actual.scenario_start ≡ true)
  pub states : All (IsStateOf gate) rows
  pub begins : StartsAt clock plan gate cycles controller start
  pub modes : All (AgreesFrom clock plan start) cycles

module _ (clock : Clock) (a : Arithmetic) (to_float : Json → Result Error Float) where
  log_start-StartsAt :
      (plan gate : Fields) (controller release onset : Float) (rows : List Json)
      (cycles : List Cycle) (start : Float)
      → log_start clock a to_float plan gate controller release onset rows cycles ≡ ok start
      → StartsAt clock plan gate cycles controller start
  unfolding log_start
  log_start-StartsAt plan gate controller release onset rows cycles start h =
      on_ok (caught (item "startup_mode" (obj plan))) _ h λ startup s h1.
        let same = ap (is_str "warm") (
          item-at "startup_mode" (obj plan) startup
            (caught-eq-ok (item "startup_mode" (obj plan)) startup s)) in
        elim (Bool-cases (is_str "warm" startup)) [
          | inl e ↦ inr (
            same ∙ e,
            anchor_start-IsAnchored clock a to_float plan gate release onset rows cycles start
                (rw e at h1),
          )
          | inr e ↦ on_refuse _ _ _ (rw e at h1) λ absent rest. inl (
            same ∙ e,
            test-eq-false (λ v. not (is_null v)) (get "anchor" (obj gate)) absent.0
                λ anchor read none_given.
                  ap is_null (get-at "anchor" (obj gate) anchor read)
                  ∙ not-false (is_null anchor) none_given,
            sym (ok-injective {E = Refusal} controller start rest),
          )
        ]

  -- When validate_evidence returns, the controller started before the gate was released and the gate
  -- was released before the load began, every observed state is of the gate's deployment and
  -- autoscaler, the start returned is the controller's or the anchor's, and every cycle from it on
  -- has the plan's mode.
  pub validate_evidence-IsConsistent :
      (metadata : Json) (plan gate status : Fields) (rows : List Json) (cycles : List Cycle)
      (actual : Actual) (start : Float)
      → validate_evidence clock a to_float metadata plan gate status rows cycles actual ≡ ok start
      → IsConsistent clock plan gate rows cycles actual start
  unfolding validate_evidence
  validate_evidence-IsConsistent metadata plan gate status rows cycles actual start h = do
    (_, _, h1) ← returned (check_identity metadata plan gate status) _ h
    (release, r, h2) ← returned (caught (time_at clock "released_at" (obj gate))) _ h1
    (controller, c, h3) ← returned (caught (time_at clock "controller_started_at" (obj plan))) _ h2
    (order, h4) ←
        not_raised (not (le controller release && le release actual.scenario_start)) _ _ h3
    (_, h5) ← not_refused _ _ _ h4
    (_, states, h6) ← returned (check_states plan gate rows) _ h5
    (begun, begins, h7) ←
        returned
          (log_start clock a to_float plan gate controller release actual.load_onset rows cycles) _
          h6
    (_, modes, h8) ← returned (check_modes clock plan begun cycles) _ h7
    subst (IsConsistent clock plan gate rows cycles actual)
        (ok-injective {E = Refusal} begun start h8)
        (record {
          release = release;
          controller = controller;
          released = caught-eq-ok (time_at clock "released_at" (obj gate)) release r;
          started = caught-eq-ok (time_at clock "controller_started_at" (obj plan)) controller c;
          ordered =
              and_true (le controller release) (le release actual.scenario_start)
                (not-false _ order);
          states = check_states-All plan gate rows states;
          begins =
              log_start-StartsAt plan gate controller release actual.load_onset rows cycles begun
                begins;
          modes = check_modes-All clock plan begun cycles modes;
        })
