-- ===== src/Cadence/Sampling/Tests.antt =====
-- The unseen intervals of a short capture (hack/analyze/cadence.py), and the theorem there.
use predictive_hpa.Prelude.{
  Any, ◌*◌, ℕ, ◌-◌, ◌≡◌, ◌↔◌, refl, arith, false, none, some, List, [], ◌∷◌, ok,
}
use predictive_hpa.Cadence.Queries.{Row}
use predictive_hpa.Cadence.Sampling.{
  Sampling, span, observer_sampling, gaps, later_gaps, append_if, unknown,
}
use predictive_hpa.Cadence.Sampling.Unseen.{In, IsUnseen, observer_sampling-iff_IsUnseen}

abbrev row : ℕ → ℕ → Row
row s f = record { started_at = some s; finished_at = some f; is_success = false; queries = none }

abbrev later : List Row
later = row 16 18 ∷ row 30 31 ∷ row 32 33 ∷ []

-- The observer starts late, pauses once for longer than allowed, and stops early.
abbrev sampled : Sampling
sampled = record {
  coverage_complete = false;
  unknown_intervals = span 0 4 ∷ span 8 20 ∷ span 23 30 ∷ [];
  unknown_time = 23;
  maximum_gap = 2;
}

sampled_run : observer_sampling (row 14 15) later 10 40 1 ≡ ok sampled
unfolding observer_sampling gaps later_gaps append_if unknown
sampled_run = refl

-- At 20 the observer has been idle since 18, and is until 30.
observer_sampling-iff_IsUnseen_example :
    Any (In (20 - 10)) sampled.unknown_intervals ↔ IsUnseen (2 * 1) (row 14 15) later 20
observer_sampling-iff_IsUnseen_example =
    observer_sampling-iff_IsUnseen (row 14 15) later 10 40 1 20 sampled sampled_run (omega arith)
      (omega arith)
