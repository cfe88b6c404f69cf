-- ===== src/Replay/History/Tests.antt =====
-- A history that gains an anchor and one whose live point replaces the last anchor
-- (hack/analyze/decision_replay.py), and the theorem there.
use predictive_hpa.Prelude.{ℕ, ◌≡◌, refl, Option, none, some, List, [], ◌∷◌, ok, err}
use predictive_hpa.Prelude.Int.{pos}
use predictive_hpa.Float.{of_ℤ}
use predictive_hpa.Replay.History.{
  Point, Query, Decision, history_series, extended, drop_last, count_disagrees,
}

abbrev point : ℕ → ℕ → Point
point t v = record { time = t; value = some (of_ℤ (pos v)) }

abbrev query : ℕ → ℕ → Query
query t n = record { latest_evaluation_at = t; observation_spacing = 30; samples = n }

abbrev decision : ℕ → Option Decision
decision n = some (record { current_cpu = of_ℤ (pos 50); samples = n })

abbrev anchors : List Point
anchors = point 10 5 ∷ point 40 6 ∷ point 75 7 ∷ []

-- The oldest anchor has left the window; the last one is too recent for another.
abbrev series : List Point
series = point 40 6 ∷ point 100 50 ∷ []

series_run :
    history_series anchors (query 100 2) (decision 2) 80 ≡ (point 40 6 ∷ point 75 7 ∷ [], ok series)
unfolding history_series extended drop_last
series_run = refl

series_returned : (history_series anchors (query 100 2) (decision 2) 80).1 ≡ ok series
unfolding history_series extended drop_last
series_returned = refl

-- Later the live point becomes an anchor.
anchored : history_series anchors (query 105 4) none 100 ≡ (
  point 10 5 ∷ point 40 6 ∷ point 75 7 ∷ record { time = 105; value = none } ∷ [],
  ok (point 10 5 ∷ point 40 6 ∷ point 75 7 ∷ record { time = 105; value = none } ∷ []),
)
unfolding history_series extended
anchored = refl

-- A missing prefix is found by the count.
missing_prefix : (history_series anchors (query 100 3) (decision 3) 80).1 ≡ err count_disagrees
unfolding history_series extended drop_last
missing_prefix = refl
