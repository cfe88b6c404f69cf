-- ===== src/Replay/History.antt =====
-- `history_series` in hack/analyze/decision_replay.py: the CPU history that a decision was made on.
-- Times and durations are microseconds.
pub mod Spacing
mod Tests
use predictive_hpa.Prelude.{
  ℕ, ◌+◌, ◌-◌, Bool, true, false, ◌||◌, ◌&&◌, not, Option, none, some, List, [], ◌∷◌, ◌++◌, ltb,
  leb, ◌==◌, if◌then◌else◌, keep_if, get_last?, length, Result, ok, err, ◌>>◌, raise_if,
}
use predictive_hpa.Float.{Float}

pub record Point : Type 0 where
  pub time : ℕ
  pub value : Option Float

-- The keys of `query` and of `decision`.
pub record Query : Type 0 where
  pub latest_evaluation_at : ℕ
  pub observation_spacing : ℕ
  pub samples : ℕ

pub record Decision : Type 0 where
  pub current_cpu : Float
  pub samples : ℕ

pub data Mismatch : Type 0 where
  count_disagrees : Mismatch

abbrev pub current : Option Decision → Option Float
current none = none
current (some d) = some d.current_cpu

abbrev pub live_point : Query → Option Decision → Point
live_point q d = record { time = q.latest_evaluation_at; value = current d }

-- `instant - window <= epoch(timestamp) < instant`
abbrev pub is_recent : ℕ → ℕ → Point → Bool
is_recent instant window p = leb instant (p.time + window) && ltb p.time instant

-- `anchors[:-1]`
pub drop_last : List Point → List Point
drop_last [] = []
drop_last (p ∷ ps) = elim ps [ [] ↦ [] | ◌∷◌ x xs ↦ p ∷ drop_last ps ]

-- The anchors afterwards and the series, from the recent anchors and the last of them.
pub extended : ℕ → Point → List Point → Option Point → List Point × List Point
unfolding drop_last
extended spacing live kept none = (kept ++ live ∷ [], kept ++ live ∷ [])
extended spacing live kept (some p) =
    if leb spacing (live.time - p.time)
    then (kept ++ live ∷ [], kept ++ live ∷ [])
    else (kept, drop_last kept ++ live ∷ [])

abbrev pub disagrees : ℕ → Option Decision → Bool
disagrees n none = false
disagrees n (some d) = not (n == d.samples)

-- The anchors afterwards, which are changed also where the count disagrees, and the series.
pub history_series :
    List Point → Query → Option Decision → ℕ → List Point × Result Mismatch (List Point)
unfolding extended
history_series anchors q d window =
    let kept = keep_if (is_recent q.latest_evaluation_at window) anchors in
    let both = extended q.observation_spacing (live_point q d) kept (get_last? kept) in
    (
      both.0,
      raise_if (not (length both.1 == q.samples) || disagrees (length both.1) d) count_disagrees
          >> ok both.1,
    )
