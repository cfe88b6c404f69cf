-- ===== src/Cadence/Sampling.antt =====
-- `observer_sampling` in hack/analyze/cadence.py: the intervals of the window that the observer left
-- unseen. Times are microseconds.
pub mod Gaps
pub mod Unseen
mod Tests
use predictive_hpa.Prelude.{
  ℕ, ◌+◌, ◌-◌, ◌*◌, Bool, true, false, List, [], ◌∷◌, ◌++◌, map, sum, min, max, ltb, if◌then◌else◌,
  keep_if, Result, ok, err, ◌>>=◌,
}
use predictive_hpa.Cadence.Queries.{Row, Refused, value}

pub record Span : Type 0 where
  pub start : ℕ
  pub finish : ℕ

abbrev pub span : ℕ → ℕ → Span
span s f = record { start = s; finish = f }

-- `if test: intervals.append((s, f))`, in front of what follows.
pub append_if : Bool → Span → List Span → List Span
append_if true s rest = s ∷ rest
append_if false s rest = rest

-- The loop over neighbours from a finish on, and the interval after the last finish.
pub later_gaps : ℕ → ℕ → ℕ → List Row → Result Refused (List Span)
unfolding append_if
later_gaps maximum_gap end finish [] = ok (append_if (ltb finish end) (span finish end) [])
later_gaps maximum_gap end finish (row ∷ rows) = do
  start ← value row.started_at
  next ← value row.finished_at
  rest ← later_gaps maximum_gap end next rows
  ok (append_if (ltb (finish + maximum_gap) start) (span finish start) rest)

-- `intervals`, for the first row and the others.
pub gaps : ℕ → ℕ → ℕ → Row → List Row → Result Refused (List Span)
unfolding later_gaps
gaps maximum_gap onset end row rows = do
  start ← value row.started_at
  finish ← value row.finished_at
  rest ← later_gaps maximum_gap end finish rows
  ok (append_if (ltb onset start) (span onset start) rest)

-- `unknown`: the part of each interval in the window, from onset.
pub unknown : ℕ → ℕ → List Span → List Span
unfolding append_if
unknown onset end [] = []
unknown onset end (s ∷ ss) =
    append_if (ltb (max s.start onset) (min s.finish end))
      (span (max s.start onset - onset) (min s.finish end - onset)) (unknown onset end ss)

pub record Sampling : Type 0 where
  pub coverage_complete : Bool
  pub unknown_intervals : List Span
  pub unknown_time : ℕ
  pub maximum_gap : ℕ

abbrev pub is_empty : List Span → Bool
is_empty [] = true
is_empty (s ∷ ss) = false

pub observer_sampling : Row → List Row → ℕ → ℕ → ℕ → Result Refused Sampling
unfolding gaps unknown
observer_sampling row rows onset end interval = do
  intervals ← gaps (2 * interval) onset end row rows
  let spans = unknown onset end intervals
  ok (record {
    coverage_complete = is_empty spans;
    unknown_intervals = spans;
    unknown_time = sum (map (λ s. s.finish - s.start) spans);
    maximum_gap = 2 * interval;
  })
