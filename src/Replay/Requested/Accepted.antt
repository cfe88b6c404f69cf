-- ===== src/Replay/Requested/Accepted.antt =====
-- What `check_requested_observations` (hack/analyze/decision_replay.py) has checked when it returns.
use mathlib.Core.Path.{subst}
use predictive_hpa.Prelude.{
  ℕ, ◌+◌, ◌≤◌, ◌≡◌, ◌⊎◌, ap, inl, inr, arith, Bool, false, ◌||◌, not, Option, none, some, List, [],
  ◌∷◌, ltb, ltb→le, ◌==◌, any_of, count_if, Bool-cases, All, or_false, ok, on_ok, on_pass,
  ok-injective,
}
use predictive_hpa.Replay.Requested.{
  Write, State, Refused, out_of_order, disagrees, read, starts_before, candidates, Checked,
  check_state, check_states, check_requested_observations,
}
use predictive_hpa.Replay.Requested.Possible.{AreIntervals, Possible, candidates-iff_Possible}

-- A state whose replicas some instant of its read may show.
abbrev pub IsExplained : ℕ → List Write → State → Type 0
IsExplained initial writes s =
    (start : ℕ) × (end : ℕ) × (s.interval ≡ some (start, end))
    × ((t : ℕ) × (start ≤ t) × (t ≤ end) × Possible initial writes t s.replicas)

read-some : (o : Option (ℕ × ℕ)) {i : ℕ × ℕ} → read o ≡ ok i → o ≡ some i
read-some none h = cc
read-some (some j) h = ap some (ok-injective {E = Refused} _ _ h)

module _ (initial : ℕ) (writes : List Write) (a : AreIntervals writes) where
  check_state-IsExplained :
      (last : Option ℕ) (s : State) {r : ℕ × Bool}
      → check_state initial writes last s ≡ ok r
      → IsExplained initial writes s
  unfolding check_state
  check_state-IsExplained last s h = on_ok (read s.interval) _ h λ i e h1.
      on_pass (starts_before i.0 last || ltb i.1 i.0) out_of_order _ h1 λ ordered h2.
        on_pass (not (any_of (λ n. s.replicas == n) (candidates initial writes i.0 i.1))) disagrees
          _ h2
          λ found h3.
            let order =
              ltb→le i.1 i.0 (or_false (starts_before i.0 last) (ltb i.1 i.0) ordered).1 in
            (
              i.0,
              i.1,
              read-some s.interval e,
              (candidates-iff_Possible initial writes i.0 i.1 s.replicas order a).0 (ground arith),
            )

  abbrev Accepted : List State → Checked → Checked → Type 0
  Accepted ss acc r =
      All (λ s. (s.is_success ≡ false) ⊎ IsExplained initial writes s) ss
      × (r.checked ≡ acc.checked + count_if (λ s. s.is_success) ss)
      × (r.overlapping + acc.checked ≤ acc.overlapping + r.checked)

  check_states-Accepted :
      (last : Option ℕ) (acc : Checked) (ss : List State) {r : Checked}
      → check_states initial writes last acc ss ≡ ok r
      → Accepted ss acc r
  unfolding check_states
  check_states-Accepted last acc [] h =
      subst (Accepted [] acc) (ok-injective {E = Refused} _ _ h) (tt, omega arith, omega arith)
  check_states-Accepted last acc (s ∷ ss) h = elim (Bool-cases s.is_success) [
    | inl good ↦ on_ok (check_state initial writes last s) _ (rw good at h) λ seen e h1.
        let (al, n, o) = check_states-Accepted (some seen.0) _ ss h1 in
        ((inr (check_state-IsExplained last s e), al), ground (arith, n), ground (arith, o))
    | inr bad ↦
        let (al, n, o) = check_states-Accepted last acc ss (rw bad at h) in
        ((inl bad, al), ground (arith, n), o)
  ]

-- When the check returns, every successful state shows replicas that some instant of its read may show,
-- where writes have a finish that is not before their start; it has counted the successful states, and
-- no more of them as overlapping.
pub check_requested_observations_lem :
    (states : List State) (writes : List Write) (initial : ℕ) (r : Checked)
    → AreIntervals writes
    → check_requested_observations states writes initial ≡ ok r
    → All (λ s. (s.is_success ≡ false) ⊎ IsExplained initial writes s) states
      × (r.checked ≡ count_if (λ s. s.is_success) states)
      × (r.overlapping ≤ r.checked)
unfolding check_requested_observations
check_requested_observations_lem states writes initial r a h =
    let (al, n, o) =
      check_states-Accepted initial writes a none (record { checked = 0; overlapping = 0 }) states
        h in
    (al, omega (arith, n), omega (arith, o))
