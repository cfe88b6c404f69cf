-- ===== src/Replay/History/Spacing.antt =====
-- What the histories of `history_series` (hack/analyze/decision_replay.py) satisfy.
use predictive_hpa.Prelude.{
  ℕ, ◌+◌, ◌≤◌, ◌<◌, ◌≡◌, Option, none, some, Result, err, List, [], ◌∷◌, ◌++◌, length, ok, All,
}
use predictive_hpa.Replay.History.{Point, Query, Decision, Mismatch, live_point}

-- Points at least `spacing` apart, from `low` on.
abbrev pub Spaced : ℕ → ℕ → List Point → Type 0
Spaced spacing low [] = Unit
Spaced spacing low (p ∷ ps) = (low ≤ p.time) × Spaced spacing (p.time + spacing) ps

-- A point in the window that ends at an instant, before it or at it.
abbrev pub Before : ℕ → ℕ → Point → Type 0
Before instant window p = (instant ≤ p.time + window) × (p.time < instant)

abbrev pub UpTo : ℕ → ℕ → Point → Type 0
UpTo instant window p = (instant ≤ p.time + window) × (p.time ≤ instant)

-- A series that ends with the live point, after spaced points before it.
abbrev pub IsHistory : ℕ → ℕ → Point → List Point → Type 0
IsHistory spacing window live r =
    (before : List Point) × (r ≡ before ++ live ∷ [])
    × Spaced spacing 0 before
    × All (Before live.time window) before

module _ (spacing window : ℕ) (live : Point) where
  abbrev AreAnchors : List Point → Type 0
  AreAnchors ps = Spaced spacing 0 ps × All (UpTo live.time window) ps

  abbrev Good : List Point × List Point → Type 0
  Good both = AreAnchors both.0 × IsHistory spacing window live both.1

-- The number of points that were recorded, for the query and for the decision if there is one.
abbrev pub Agrees : ℕ → Query → Option Decision → Type 0
Agrees n q none = n ≡ q.samples
Agrees n q (some d) = (n ≡ q.samples) × (n ≡ d.samples)

-- A history is returned if its count is that recorded, else it is refused.
abbrev pub IsOutcome : Query → Option Decision → ℕ → Result Mismatch (List Point) → Type 0
IsOutcome q d window (ok r) =
    Agrees (length r) q d × IsHistory q.observation_spacing window (live_point q d) r
IsOutcome q d window (err e) =
    (r : List Point) × (¬ Agrees (length r) q d)
    × IsHistory q.observation_spacing window (live_point q d) r
