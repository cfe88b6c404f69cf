-- ===== src/Extract/Scaling/Tests.antt =====
-- Runs of `compute_scaling_metrics` (hack/analyze/extract.py), and its theorems at these runs.
use mathlib.Core.Option
use predictive_hpa.Prelude.{ℕ, ◌+◌, ◌≡◌, refl, true, some, List, [], ◌∷◌, ok, err}
use predictive_hpa.Prelude.Int.{ℤ, pos, negsuc, ◌-ℤ◌, ◌+ℤ◌}
use predictive_hpa.Float
use predictive_hpa.Float.{Float, of_ℤ, nan, finite, IntError, value_error}
use predictive_hpa.Extract.Measurement.{Point}
use predictive_hpa.Extract.Scaling.{
  ScaleEvent, Scaling, scaling, scale_events, scaling_of, highest, max_ℤ, up_of, down_of,
  steady_state_of, not_grown,
}
use predictive_hpa.Extract.Scaling.Peak.{AtMost, reaching, scaling-steady_state}

abbrev points_from : ℕ → List ℕ → List Point
points_from t [] = []
points_from t (n ∷ ns) = record { time = t; value = of_ℤ (pos n) } ∷ points_from (t + 15) ns

-- A rise to ten, a fall, and a second rise while scaling down.
abbrev first : Point
first = record { time = 100; value = of_ℤ (pos 1) }

abbrev later : List Point
later = points_from 115 (2 ∷ 10 ∷ 10 ∷ 5 ∷ 6 ∷ 4 ∷ 1 ∷ [])

abbrev event : ℕ → ℕ → ℕ → ScaleEvent
event rel old new = record { rel = pos rel; old = pos old; new = pos new }

abbrev measured : Scaling
measured = record {
  events =
      event 5 1 2 ∷ event 20 2 10 ∷ event 50 10 5 ∷ event 65 5 6 ∷ event 80 6 4 ∷ event 95 4 1 ∷ [];
  first_scaleup = some (pos 5);
  convergence = some (pos 20);
  steady_state = some (pos 10);
  first_scaledown = some (negsuc 9);
  full_scaledown = some (pos 35);
  scaledown_completed = true;
  warnings = [];
}

scaling_run : scaling 110 170 (first ∷ later) ≡ ok measured
unfolding scaling scale_events scaling_of up_of down_of steady_state_of highest max_ℤ not_grown ◌-ℤ◌
    ◌+ℤ◌ Option.bind
scaling_run = refl

scaling-steady_state_example :
    ((initial : ℤ) × (Float.int first.value ≡ ok initial) × AtMost initial (pos 10) later)
    × ((e : ScaleEvent) × (reaching (pos 10) measured.events ≡ some e)
        × (measured.convergence ≡ some e.rel))
scaling-steady_state_example =
    scaling-steady_state 110 170 first later measured (pos 10) scaling_run refl

abbrev with_nan : List Point
with_nan = first ∷ record { time = 115; value = nan } ∷ []

-- `int(float("nan"))` raises.
nan_run : scaling 110 170 with_nan ≡ err value_error
unfolding scaling scale_events
nan_run = refl

-- Replicas that stay at four all along count as scaled down.
constant_run :
    (s : Scaling) × (scaling 110 170 (points_from 100 (4 ∷ 4 ∷ 4 ∷ [])) ≡ ok s)
    × (s.scaledown_completed ≡ true)
unfolding scaling scale_events scaling_of up_of down_of not_grown
constant_run = (_, refl, refl)
