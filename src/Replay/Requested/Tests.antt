-- ===== src/Replay/Requested/Tests.antt =====
-- Reads before, during and after a write (hack/analyze/decision_replay.py), and the theorems there.
use predictive_hpa.Prelude.{
  ℕ, ◌≤◌, ◌≡◌, ◌⊎◌, ◌↔◌, refl, arith, true, false, none, some, List, [], ◌∷◌, ◌==◌, any_of,
  count_if, All, ok, err,
}
use predictive_hpa.Replay.Requested.{
  Write, State, Checked, candidates, preceding, touched, check_state, check_states,
  check_requested_observations, disagrees,
}
use predictive_hpa.Replay.Requested.Possible.{AreIntervals, Possible, candidates-iff_Possible}
use predictive_hpa.Replay.Requested.Accepted.{IsExplained, check_requested_observations_lem}

abbrev write : ℕ → ℕ → ℕ → ℕ → Write
write s f old new = record { started = s; finished = f; old = old; new = new }

abbrev writes : List Write
writes = write 20 22 1 3 ∷ write 40 41 3 2 ∷ []

abbrev state : ℕ → ℕ → ℕ → State
state s f n = record { is_success = true; interval = some (s, f); replicas = n }

abbrev states : List State
states =
    state 10 11 1
    ∷ state 21 23 3
    ∷ record { is_success = false; interval = none; replicas = 0 }
    ∷ state 30 31 3
    ∷ state 50 51 2
    ∷ []

abbrev result : Checked
result = record { checked = 4; overlapping = 1 }

states_run : check_requested_observations states writes 1 ≡ ok result
unfolding check_requested_observations check_states check_state candidates preceding touched
states_run = refl

intervals : AreIntervals writes
intervals = (omega arith, (omega arith, tt))

check_requested_observations_lem_example :
    All (λ s. (s.is_success ≡ false) ⊎ IsExplained 1 writes s) states
    × (result.checked ≡ count_if (λ s. s.is_success) states)
    × (result.overlapping ≤ result.checked)
check_requested_observations_lem_example =
    check_requested_observations_lem states writes 1 result intervals states_run

candidates-iff_Possible_example :
    (any_of (λ m. 3 == m) (candidates 1 writes 21 23) ≡ true)
    ↔ ((t : ℕ) × (21 ≤ t) × (t ≤ 23) × Possible 1 writes t 3)
candidates-iff_Possible_example = candidates-iff_Possible 1 writes 21 23 3 (omega arith) intervals

-- A count that no write explains is refused.
unexplained : check_requested_observations (state 30 31 2 ∷ []) writes 1 ≡ err disagrees
unfolding check_requested_observations check_states check_state candidates preceding touched
unexplained = refl
