-- ===== src/Extract/Measurement/Tests.antt =====
-- Runs of the measurement of hack/analyze/extract.py on a small recorded scenario, and the theorems
-- at that scenario.
use predictive_hpa.Prelude.{
  ℕ, zero, suc, ◌+◌, ◌-◌, ◌*◌, ◌≤◌, ◌<◌, ◌≡◌, ◌≢◌, refl, true, false, none, some, List, [], ◌∷◌,
  arith, ◌⊎◌, ok, err,
}
use predictive_hpa.Prelude.Int.{pos}
use predictive_hpa.Float.{of_ℤ}
use predictive_hpa.Timeline.{Sample, sample, held}
use predictive_hpa.Timeline.Integral.{integral}
use predictive_hpa.Extract.Window.{Window}
use predictive_hpa.Extract.Window.Bounds.{Fits}
use predictive_hpa.Extract.Measurement.{
  Point, timeline, sorted, insert, events, accumulate, add_sample, observation_gap,
}
use predictive_hpa.Extract.Measurement.Retained.{IsRetained, timeline-IsRetained}
use predictive_hpa.Extract.Measurement.Report.{summarize}
use predictive_hpa.Extract.Measurement.Integrals.{summarize-integrals, above_one}
use predictive_hpa.Extract.Measurement.Changes.{summarize-events, Linked, replayed}
use predictive_hpa.Extract.Measurement.Levels.{summarize-levels}
use predictive_hpa.Extract.Measurement.Bounds.{summarize_bounds}
use predictive_hpa.Extract.Measurement.Milestones.{summarize-full_scaledown}
use predictive_hpa.Extract.Measurement.Rises.{summarize-first_scaleup}

abbrev step_window : Window
step_window = record {
  runner_start = 1000;
  runner_end = 1212;
  onset = 1030;
  offered_end = 1211;
  tail_end = 1571;
}

fits : Fits 211 step_window
fits = omega arith

abbrev repeated : ℕ → ℕ → List ℕ → List ℕ
repeated zero n rest = rest
repeated (suc k) n rest = n ∷ repeated k n rest

abbrev points_from : ℕ → List ℕ → List Point
points_from t [] = []
points_from t (n ∷ ns) = record { time = t; value = of_ℤ (pos n) } ∷ points_from (t + 15) ns

abbrev samples_from : ℕ → List ℕ → List Sample
samples_from t [] = []
samples_from t (n ∷ ns) = sample t n ∷ samples_from (t + 15) ns

-- One replica, three from 1050 s on, and one again from 1410 s on.
abbrev counts : List ℕ
counts = 1 ∷ repeated 24 3 (repeated 11 1 [])

abbrev points : List Point
points = points_from 1020 (1 ∷ counts)

abbrev base : Sample
base = sample 1020 1

abbrev inside : List Sample
inside = samples_from 1035 counts

timeline_runs : timeline step_window points ≡ ok (base, inside)
unfolding timeline insert sorted
timeline_runs = refl

measured :
    let m = summarize step_window base inside in
    (m.pod_seconds ≡ 1261) × (m.first_scaleup ≡ some 20) × (m.full_scaledown ≡ some 199)
unfolding summarize events accumulate add_sample
measured = (refl, refl, refl)

timeline_refuses_nan : timeline step_window (points_from 1020 (1 ∷ 1 ∷ [])) ≡ err observation_gap
unfolding timeline insert sorted
timeline_refuses_nan = refl

timeline-IsRetained_example : IsRetained step_window points base inside
timeline-IsRetained_example = timeline-IsRetained step_window points base inside timeline_runs

summarize-integrals_example :
    let m = summarize step_window base inside in
    let count = held base.replicas inside in
    (m.pod_seconds ≡ integral count 1030 541)
    × (m.post_load ≡ integral count 1211 360)
    × (m.excess ≡ integral (λ t. count t - 1) 1211 360)
    × (m.above_min ≡ integral (λ t. above_one (count t)) 1211 360)
summarize-integrals_example =
    summarize-integrals step_window points base inside (omega arith) timeline_runs

summarize-events_example :
    let m = summarize step_window base inside in
    Linked 1030 m.initial m.events m.final
    × ((t : ℕ) → held m.initial (replayed m.events) t ≡ held base.replicas inside t)
summarize-events_example = summarize-events step_window points base inside timeline_runs

summarize-levels_example :
    let m = summarize step_window base inside in
    let count = held base.replicas inside in
    (m.initial ≡ count 1030)
    × (m.at_offered_end ≡ count 1211)
    × (m.final ≡ count 1571)
    × ((t : ℕ) → (1 ≤ count t) × (count t ≤ m.peak))
    × ((t : ℕ) × (1030 ≤ t) × (count t ≡ m.peak))
summarize-levels_example =
    summarize-levels step_window points base inside (omega arith) timeline_runs

summarize_bounds_example :
    let m = summarize step_window base inside in
    (m.window_duration ≡ 541)
    × (m.window_duration ≤ m.pod_seconds)
    × (m.pod_seconds ≤ m.peak * m.window_duration)
    × (m.post_load ≤ m.pod_seconds)
    × (m.post_load ≡ m.excess + 360)
    × (m.above_min ≤ 360)
summarize_bounds_example =
    summarize_bounds step_window points base inside 211 fits (omega arith) timeline_runs

summarize-full_scaledown_example :
    let m = summarize step_window base inside in
    let count = held base.replicas inside in
    ((m.final ≢ 1) × (m.scaledown_completed ≡ false) × (m.full_scaledown ≡ none))
    ⊎ ((d : ℕ) × (m.scaledown_completed ≡ true)
        × (m.full_scaledown ≡ some d)
        × ((k : ℕ) → count (1211 + d + k) ≡ 1)
        × ((d ≡ 0) ⊎ (count (1211 + d - 1) ≢ 1)))
summarize-full_scaledown_example =
    summarize-full_scaledown step_window points base inside timeline_runs

summarize-first_scaleup_example :
    let first = (summarize step_window base inside).first_scaleup in
    let count = held base.replicas inside in
    ((first ≡ none) × ((k : ℕ) → count (1030 + suc k) ≤ count (1030 + k)))
    ⊎ ((d : ℕ) × (first ≡ some d)
        × (count (1030 + d - 1) < count (1030 + d))
        × ((k : ℕ) → (d ≤ k + 1) ⊎ (count (1030 + suc k) ≤ count (1030 + k))))
summarize-first_scaleup_example =
    summarize-first_scaleup step_window points base inside timeline_runs
