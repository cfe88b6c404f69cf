-- ===== src/LiveBaseline/Plan/Accepted.antt =====
-- hack/analyze/live_baseline.py, validate_plan: what an accepted plan states.
use predictive_hpa.Prelude.{
  String, Bool, true, false, not, ◌&&◌, ◌||◌, ◌≡◌, ◌⊎◌, inl, inr, ◌∙◌, List, [], ◌∷◌, ok, on_ok,
  passed, if◌then◌else◌, All, Bool-cases, or_false, arith,
}
use predictive_hpa.Prelude.Inversion.{◌>>=◌, returned, not_raised}
use predictive_hpa.Prelude.Int.{pos}
use predictive_hpa.Json.{Json, str, int, item, at, item-at, is_str, is_str-eq, eq}
use predictive_hpa.Latency.Values.{Clock}
use predictive_hpa.LiveBaseline.Refusal.{caught, caught-eq-ok, is_one_of}
use predictive_hpa.LiveBaseline.Plan.{
  cadence_protocol, protocols, amounts, is_amount, check_amount, check_amounts, load_duration,
  check_cadence, validate_plan,
}
use text.Mathlib.Text.{◌==◌ as str_eq}
use mathlib.Core.Path.{subst}

not-false : (b : Bool) → not b ≡ false → b ≡ true
not-false b h = ground arith

-- The value of a field of the plan.
abbrev pub value : Json → String → Json
value plan name = at (name ∷ []) plan

or_last : (b : Bool) → (b || false) ≡ true → b ≡ true
or_last b h = ground arith

two_of : (a b : String) (v : Json) → is_one_of (a ∷ b ∷ []) v ≡ true → (v ≡ str a) ⊎ (v ≡ str b)
two_of a b v h = elim (Bool-cases (is_str a v)) [
  | inl e ↦ inl (is_str-eq a v e)
  | inr e ↦ inr (is_str-eq b v (or_last (is_str b v) (rw e at h)))
]

-- A plan of the cadence pilot: all but its interval, its rate and its requeue time are fixed.
pub record IsCadencePlan (plan : Json) : Type 0 where
  pub startup : value plan "startup_mode" ≡ str "warm"
  pub mode : value plan "decision_mode" ≡ str "Current"
  pub pattern : value plan "pattern" ≡ str "step"
  pub offered : eq (value plan "offered_duration_seconds") (int (pos 181)) ≡ true
  pub quiet : eq (value plan "quiet_seconds") (int (pos 0)) ≡ true
  pub requeue :
      (eq (value plan "requeue_seconds") (int (pos 15))
        || eq (value plan "requeue_seconds") (int (pos 30)))
      ≡ true

-- A plan of a live baseline.
pub record IsBaselinePlan (plan : Json) : Type 0 where
  pub offered :
      ((value plan "pattern" ≡ str "step")
        × (eq (value plan "offered_duration_seconds") (int (pos 181)) ≡ true))
      ⊎ ((value plan "pattern" ≡ str "ramp")
          × (eq (value plan "offered_duration_seconds") (int (pos 240)) ≡ true))
  pub quiet : eq (value plan "quiet_seconds") (int (pos 30)) ≡ true

pub record IsPlan (plan : Json) : Type 0 where
  pub positive :
      All
        (λ name.
          is_amount
            (str_eq name "quiet_seconds" && is_str cadence_protocol (value plan "protocol_version"))
            (value plan name)
          ≡ true)
        amounts
  pub tail : eq (value plan "post_load_tail_seconds") (int (pos 360)) ≡ true
  pub protocol :
      ((value plan "protocol_version" ≡ str "live-baseline-v1") × IsBaselinePlan plan)
      ⊎ ((value plan "protocol_version" ≡ str cadence_protocol) × IsCadencePlan plan)

check_amounts-All :
    (cadence : Bool) (plan : Json) (names : List String)
    → check_amounts cadence plan names ≡ ok tt
    → All
        (λ name. is_amount (str_eq name "quiet_seconds" && cadence) (value plan name) ≡ true)
        names
unfolding check_amounts check_amount
check_amounts-All cadence plan [] h = tt
check_amounts-All cadence plan (name ∷ names) h =
    on_ok (check_amount cadence plan name) _ h λ _ here rest.
      on_ok (caught (item name plan)) _ here λ v read h'.
        let same = item-at name plan v (caught-eq-ok (item name plan) v read) in
        (rw same (not-false _ (passed _ _ h')), check_amounts-All cadence plan names rest)

-- The duration that the pattern asks for.
baseline_offered :
    (pattern offered : Json)
    → is_one_of ("step" ∷ "ramp" ∷ []) pattern ≡ true
    → eq offered (int (load_duration pattern)) ≡ true
    → ((pattern ≡ str "step") × (eq offered (int (pos 181)) ≡ true))
      ⊎ ((pattern ≡ str "ramp") × (eq offered (int (pos 240)) ≡ true))
baseline_offered pattern offered p h = elim (two_of "step" "ramp" pattern p) [
  | inl e ↦ inl (e, subst (λ v. eq offered (int (load_duration v)) ≡ true) e h)
  | inr e ↦ inr (e, subst (λ v. eq offered (int (load_duration v)) ≡ true) e h)
]

-- The quiet period and the last check, by protocol.
baseline_quiet :
    (protocol quiet : Json)
    → protocol ≡ str "live-baseline-v1"
    → eq quiet (int (if is_str cadence_protocol protocol then pos 0 else pos 30)) ≡ true
    → eq quiet (int (pos 30)) ≡ true
baseline_quiet protocol quiet e h =
    subst (λ v. eq quiet (int (if is_str cadence_protocol v then pos 0 else pos 30)) ≡ true) e h

cadence_quiet :
    (protocol quiet : Json)
    → protocol ≡ str cadence_protocol
    → eq quiet (int (if is_str cadence_protocol protocol then pos 0 else pos 30)) ≡ true
    → eq quiet (int (pos 0)) ≡ true
cadence_quiet protocol quiet e h =
    subst (λ v. eq quiet (int (if is_str cadence_protocol v then pos 0 else pos 30)) ≡ true) e h

cadence_check :
    (protocol startup mode pattern requeue : Json)
    → protocol ≡ str cadence_protocol
    → (if is_str cadence_protocol protocol
        then check_cadence startup mode pattern requeue
        else ok tt)
      ≡ ok tt
    → check_cadence startup mode pattern requeue ≡ ok tt
cadence_check protocol startup mode pattern requeue e h =
    subst
      (λ v.
        (if is_str cadence_protocol v then check_cadence startup mode pattern requeue else ok tt)
        ≡ ok tt)
      e h

module _ (startup mode pattern requeue : Json) where
  check_cadence-passed :
      check_cadence startup mode pattern requeue ≡ ok tt
      → (startup ≡ str "warm")
        × (mode ≡ str "Current")
        × (pattern ≡ str "step")
        × ((eq requeue (int (pos 15)) || eq requeue (int (pos 30))) ≡ true)
  unfolding check_cadence
  check_cadence-passed h =
      let w' = not (is_str "warm" startup) in
      let c' = not (is_str "Current" mode) in
      let s' = not (is_str "step" pattern) in
      let slow = not (eq requeue (int (pos 15)) || eq requeue (int (pos 30))) in
      let (h1, r) = or_false ((w' || c') || s') slow (passed _ _ h) in
      let (h2, s) = or_false (w' || c') s' h1 in
      let (w, c) = or_false w' c' h2 in
      (
        is_str-eq "warm" startup (not-false _ w),
        is_str-eq "Current" mode (not-false _ c),
        is_str-eq "step" pattern (not-false _ s),
        not-false _ r,
      )

-- What the checks leave of a plan, by its protocol, from the fields that they read.
baseline_plan :
    (plan protocol pattern offered quiet : Json)
    → protocol ≡ str "live-baseline-v1"
    → (value plan "pattern" ≡ pattern)
      × (value plan "offered_duration_seconds" ≡ offered)
      × (value plan "quiet_seconds" ≡ quiet)
    → is_one_of ("step" ∷ "ramp" ∷ []) pattern ≡ true
    → eq offered (int (load_duration pattern)) ≡ true
    → eq quiet (int (if is_str cadence_protocol protocol then pos 0 else pos 30)) ≡ true
    → IsBaselinePlan plan
baseline_plan plan protocol pattern offered quiet e (t, o, q) known lasting silent = record {
  offered = rw (t, o) (baseline_offered pattern offered known lasting);
  quiet = rw q (baseline_quiet protocol quiet e silent);
}

cadence_plan :
    (plan protocol startup mode pattern offered quiet requeue : Json)
    → protocol ≡ str cadence_protocol
    → (value plan "startup_mode" ≡ startup)
      × (value plan "decision_mode" ≡ mode)
      × (value plan "pattern" ≡ pattern)
      × (value plan "offered_duration_seconds" ≡ offered)
      × (value plan "quiet_seconds" ≡ quiet)
      × (value plan "requeue_seconds" ≡ requeue)
    → eq offered (int (load_duration pattern)) ≡ true
    → eq quiet (int (if is_str cadence_protocol protocol then pos 0 else pos 30)) ≡ true
    → check_cadence startup mode pattern requeue ≡ ok tt
    → IsCadencePlan plan
cadence_plan plan protocol startup mode pattern offered quiet requeue e (u, m, t, o, q, r) lasting
      silent checked =
    let (warm, current, step, slow) = check_cadence-passed startup mode pattern requeue checked in
    record {
      startup = u ∙ warm;
      mode = m ∙ current;
      pattern = t ∙ step;
      offered = rw o (subst (λ v. eq offered (int (load_duration v)) ≡ true) step lasting);
      quiet = rw q (cadence_quiet protocol quiet e silent);
      requeue = rw r slow;
    }

module _ (clock : Clock) where
  -- An accepted plan names one of the two protocols; its amounts are finite and positive, but for the
  -- quiet period of a cadence pilot, which is zero; the tail is 360 s. A live baseline is quiet for
  -- 30 s and offers load for as long as its pattern asks. A cadence pilot is a warm Current step run
  -- of 181 s at 15 or 30 s.
  pub validate_plan-IsPlan : (plan : Json) → validate_plan clock plan ≡ ok tt → IsPlan plan
  unfolding validate_plan
  validate_plan-IsPlan plan h =
      let read = λ (name : String) (v : Json) (e : caught (item name plan) ≡ ok v).
        item-at name plan v (caught-eq-ok (item name plan) v e) in
      do
        (protocol, p', h1) ← returned (caught (item "protocol_version" plan)) _ h
        (known, h2) ← not_raised (not (is_one_of protocols protocol)) _ _ h1
        (startup, u, h3) ← returned (caught (item "startup_mode" plan)) _ h2
        (_, h4) ← not_raised (not (is_one_of ("warm" ∷ "cold" ∷ []) startup)) _ _ h3
        (mode, m, h5) ← returned (caught (item "decision_mode" plan)) _ h4
        (_, h6) ←
            not_raised (not (is_one_of ("Current" ∷ "Predictive" ∷ "Hybrid" ∷ []) mode)) _ _ h5
        (pattern, t', h7) ← returned (caught (item "pattern" plan)) _ h6
        (one, h8) ← not_raised (not (is_one_of ("step" ∷ "ramp" ∷ []) pattern)) _ _ h7
        (_, positive, h9) ←
            returned (check_amounts (is_str cadence_protocol protocol) plan amounts) _ h8
        (offered, o', h10) ← returned (caught (item "offered_duration_seconds" plan)) _ h9
        (lasting, h11) ← not_raised (not (eq offered (int (load_duration pattern)))) _ _ h10
        (quiet, q', h12) ← returned (caught (item "quiet_seconds" plan)) _ h11
        (silent, h13) ←
            not_raised
              (not (eq quiet (int (if is_str cadence_protocol protocol then pos 0 else pos 30)))) _
              _ h12
        (tail, a, h14) ← returned (caught (item "post_load_tail_seconds" plan)) _ h13
        (after, h15) ← not_raised (not (eq tail (int (pos 360)))) _ _ h14
        (requeue, r, h16) ← returned (caught (item "requeue_seconds" plan)) _ h15
        (_, c, _) ←
            returned
              (if is_str cadence_protocol protocol
                then check_cadence startup mode pattern requeue
                else ok tt)
              _ h16
        let p = read "protocol_version" protocol p'
        let t = read "pattern" pattern t'
        let o = read "offered_duration_seconds" offered o'
        let q = read "quiet_seconds" quiet q'
        record {
          positive =
              rw p (check_amounts-All (is_str cadence_protocol protocol) plan amounts positive);
          tail = rw (read "post_load_tail_seconds" tail a) (not-false _ after);
          protocol =
              elim (two_of "live-baseline-v1" cadence_protocol protocol (not-false _ known)) [
                | inl e ↦ inl (
                  p ∙ e,
                  baseline_plan plan protocol pattern offered quiet e (t, o, q) (not-false _ one)
                      (not-false _ lasting) (not-false _ silent),
                )
                | inr e ↦ inr (
                  p ∙ e,
                  cadence_plan plan protocol startup mode pattern offered quiet requeue e
                      (
                        read "startup_mode" startup u,
                        read "decision_mode" mode m,
                        t,
                        o,
                        q,
                        read "requeue_seconds" requeue r,
                      )
                      (not-false _ lasting) (not-false _ silent)
                      (cadence_check protocol startup mode pattern requeue e c),
                )
              ];
        }
