-- ===== src/Cadence/Signals/Tests.antt =====
-- The totals of a few observations (hack/analyze/cadence.py), and the theorem on totals there.
use predictive_hpa.Prelude.{
  ℕ, ◌+◌, ◌≤◌, ◌≡◌, refl, true, false, some, List, [], ◌∷◌, length, ok, err, String,
}
use predictive_hpa.Cadence.Signals.{
  Identity, Container, Row, Signals, Counts, Classification, invalid_identity, signal_totals,
  observe_all, observe, sources, collect, lookup, classify, same_keys, advanced, count_up,
}
use predictive_hpa.Cadence.Signals.Totals.{Totals, signal_totals-Totals}

abbrev identity : String → Identity
identity pod = record { pod = pod; pod_uid = "u"; container = "php"; runtime_id = "r" }

abbrev at_time : String → ℕ → Container
at_time pod t = record { identity = identity pod; source_timestamp = some t }

abbrev accepted : ℕ → List Container → Row
accepted t cs = record { finished_at = some t; is_success = true; containers = cs }

-- The first, an advance, a repeated source, a refusal, and a second container.
abbrev rows : List Row
rows =
    accepted 10 (at_time "a" 5 ∷ [])
    ∷ accepted 20 (at_time "a" 15 ∷ [])
    ∷ accepted 30 (at_time "a" 15 ∷ [])
    ∷ record { finished_at = some 40; is_success = false; containers = [] }
    ∷ accepted 50 (at_time "a" 45 ∷ at_time "b" 44 ∷ [])
    ∷ []

abbrev entire : Counts
entire = record { accepted = 4; rejected = 1; advanced = 1; repeated = 1; initial = 2 }

abbrev window : Counts
window = record { accepted = 2; rejected = 1; advanced = 1; repeated = 1; initial = 0 }

abbrev totals : Signals
totals = record {
  window = window;
  entire = entire;
  observations =
      record { finished = 10; classification = Classification.initial_or_changed_membership }
      ∷ record { finished = 20; classification = Classification.strictly_advanced }
      ∷ record { finished = 30; classification = Classification.repeated_or_partial }
      ∷ record { finished = 40; classification = Classification.rejected }
      ∷ record { finished = 50; classification = Classification.initial_or_changed_membership }
      ∷ [];
}

totals_run : signal_totals 15 50 rows ≡ ok totals
unfolding signal_totals observe_all observe sources collect lookup classify same_keys advanced
    count_up
totals_run = refl

signal_totals-Totals_example :
    Totals 15 50 totals
    × (length totals.observations ≡ length rows)
    × (totals.entire.accepted + totals.entire.rejected ≡ length rows)
    × (totals.window.accepted ≤ totals.entire.accepted)
    × (totals.window.rejected ≤ totals.entire.rejected)
signal_totals-Totals_example = signal_totals-Totals 15 50 rows totals totals_run

-- A container that is listed twice is refused.
twice :
    signal_totals 15 50 (accepted 10 (at_time "a" 5 ∷ at_time "a" 6 ∷ []) ∷ [])
    ≡ err invalid_identity
unfolding signal_totals observe_all observe sources collect lookup
twice = refl
