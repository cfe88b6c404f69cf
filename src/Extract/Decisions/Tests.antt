-- ===== src/Extract/Decisions/Tests.antt =====
-- The metrics of a small controller log (hack/analyze/extract.py), and the theorems there.
use text.Mathlib.Text.{◌==◌ as str_eq}
use predictive_hpa.Prelude.{
  ℕ, ◌-◌, ◌≤◌, ◌≡◌, ◌⊎◌, refl, Bool, true, false, ◌&&◌, ◌==◌, Option, none, some, List, [], ◌∷◌,
  map, length, count_if, any_of, All, ok, err, String,
}
use predictive_hpa.Prelude.Int.{pos}
use predictive_hpa.Extract.Decisions.{
  Decision, Value, integer, missing, boolean, phpa_metrics, unique, add_decisions, add_decision,
  add_by_id, has_key, assign, counter, count_one, first_upscale, FirstUpscale, upscales, is_upscale,
  earliest, micros, time_of, invalid_previous, Source,
}
use predictive_hpa.Extract.Decisions.Unique.{first_of_each}
use predictive_hpa.Extract.Decisions.Counts.{
  reconciles, count_for, counts, phpa_metrics-first_of_each,
}
use predictive_hpa.Extract.Decisions.First.{first_upscale-earliest, upscaled, candidates}

abbrev reconciled : Option String → ℕ → Bool → String → Decision
reconciled rid t scaled reason = record {
  is_applied = false;
  reconcile_id = rid;
  timestamp = some t;
  scaled = scaled;
  stabilized = false;
  skip_reason = reason;
  previous_desired = missing;
  current_replicas = integer (pos 1);
  final_desired = integer (pos 3);
}

abbrev updated : ℕ → Value → Decision
updated t previous = record {
  is_applied = true;
  reconcile_id = some "u";
  timestamp = some t;
  scaled = true;
  stabilized = false;
  skip_reason = "";
  previous_desired = previous;
  current_replicas = integer (pos 1);
  final_desired = integer (pos 3);
}

abbrev log : List Decision
log =
    reconciled (some "a") 9000000 false "warming"
    ∷ reconciled none 11000000 true ""
    ∷ reconciled (some "a") 12000000 true ""
    ∷ updated 12500000 (integer (pos 2))
    ∷ reconciled none 13000000 false "warming"
    ∷ []

metrics_run : phpa_metrics log ≡ record {
  total_reconciles = 4;
  unique_decisions = 3;
  scaled_true_count = 1;
  stabilized_true_count = 0;
  skip_reasons = ("warming", 2) ∷ ("", 1) ∷ [];
}
unfolding phpa_metrics unique add_decisions add_decision add_by_id has_key assign counter count_one
metrics_run = refl

phpa_metrics-first_of_each_example :
    ((phpa_metrics log).unique_decisions ≡ length (first_of_each [] (reconciles log)))
    × ((phpa_metrics log).unique_decisions ≤ (phpa_metrics log).total_reconciles)
    × ((phpa_metrics log).scaled_true_count
        ≡ count_if (λ d. d.scaled) (first_of_each [] (reconciles log)))
    × ((phpa_metrics log).stabilized_true_count
        ≡ count_if (λ d. d.stabilized) (first_of_each [] (reconciles log)))
    × (count_for "warming" (phpa_metrics log).skip_reasons
        ≡ count_if
            (λ r. str_eq "warming" r)
            (map (λ d. d.skip_reason) (first_of_each [] (reconciles log))))
    × (counts (phpa_metrics log).skip_reasons ≡ (phpa_metrics log).unique_decisions)
phpa_metrics-first_of_each_example = phpa_metrics-first_of_each log "warming"

abbrev first : FirstUpscale
first = record {
  after_onset = some 2500000;
  time = some 12500000;
  source = some Source.scaled_deployment;
}

first_run : first_upscale log (some (10, 60)) ≡ ok first
unfolding first_upscale upscales is_upscale earliest
first_run = refl

first_upscale-earliest_example :
    ((first.time ≡ none) × All (λ d. upscaled log 10 60 d ≡ false) (candidates log))
    ⊎ ((t : ℕ) × (first.time ≡ some t)
        × (first.after_onset ≡ some (t - micros 10))
        × ((micros 10 ≤ t) × (t ≤ micros 60))
        × (any_of (λ d. upscaled log 10 60 d && time_of d.timestamp == t) (candidates log) ≡ true)
        × All (λ d. (upscaled log 10 60 d ≡ false) ⊎ (t ≤ time_of d.timestamp)) (candidates log))
first_upscale-earliest_example = first_upscale-earliest log 10 60 first first_run

-- Without updates in the log the summaries of the reconciles serve.
summaries_run :
    first_upscale (reconciled none 11000000 true "" ∷ []) (some (10, 60))
    ≡ ok (record {
      after_onset = some 1000000;
      time = some 11000000;
      source = some Source.reconciled;
    })
unfolding first_upscale upscales is_upscale earliest
summaries_run = refl

-- A previous count that is a truth value is refused.
refused_run : first_upscale (updated 1 (boolean true) ∷ []) none ≡ err invalid_previous
unfolding first_upscale
refused_run = refl
