-- ===== src/LiveBaseline/Occupancy.antt =====
-- hack/analyze/live_baseline.py, integrate and readiness_evidence: for how long each value of the
-- readings was held, and where none is known.
use predictive_hpa.Prelude.{
  ℕ, zero, suc, ◌*◌, ◌^◌, Bool, true, false, not, ◌&&◌, ◌||◌, Option, some, none, List, [], ◌∷◌,
  ◌++◌, Result, ok, err, ◌>>=◌, if◌then◌else◌, String,
}
use predictive_hpa.Prelude.Int.{pos}
use predictive_hpa.Float
use predictive_hpa.Float.{Float, finite, of_ℤ}
use predictive_hpa.Json.{eq_float, Error}
use predictive_hpa.Latency.Values.{Arithmetic, le}
use predictive_hpa.LiveBaseline.Samples.{Reading}
pub mod Known
mod Tests

pub record Interval : Type 0 where
  pub begin : Float
  pub finish : Float

-- `max(x, y)` and `min(x, y)`
abbrev pub max_float : Float → Float → Float
max_float x y = if Float.lt x y then y else x

abbrev pub min_float : Float → Float → Float
min_float x y = if Float.lt y x then y else x

-- The part of the window between two readings.
abbrev pub between : Float → Float → Reading → Reading → Interval
between onset end left right = record {
  begin = max_float onset left.finish;
  finish = min_float end right.finish;
}

abbrev pub is_empty : Interval → Bool
is_empty i = le i.finish i.begin

-- `total`, `post`, `covered` and `intervals`
pub record Sums : Type 0 where
  pub total : Float
  pub post : Float
  pub covered : Float
  pub intervals : List Interval

-- The dictionary that `integrate` returns.
pub record Coverage : Type 0 where
  pub pod_seconds : Option Float
  pub covered_pod_seconds : Float
  pub post_load_pod_seconds : Option Float
  pub covered_seconds : Float
  pub unknown_seconds : Float
  pub unknown_intervals : List Interval
  pub complete : Bool

-- The literal 0.000001
abbrev pub micro : Float
micro = finite (pos 0) (4722366482869645 * 2 ^ 1002)

-- The dictionary that `readiness_evidence` returns, less its description.
pub record Readiness : Type 0 where
  pub sampled_false_seconds : Float
  pub sampled_false_intervals : List Interval
  pub unknown_seconds : Float
  pub unknown_intervals : List Interval
  pub complete : Bool
  pub samples : List (Interval × String)

abbrev pub no_sums : Sums
no_sums = record {
  total = of_ℤ (pos 0);
  post = of_ℤ (pos 0);
  covered = of_ℤ (pos 0);
  intervals = [];
}

-- `false_intervals`: an interval that begins where the last one ends extends it.
abbrev pub add_false : List Interval → Interval → List Interval
add_false [] i = i ∷ []
add_false (j ∷ []) i =
    if eq_float j.finish i.begin then record j { finish = i.finish } ∷ [] else j ∷ i ∷ []
add_false (j ∷ k ∷ ks) i = j ∷ add_false (k ∷ ks) i

-- `{0: "True", 1: "False", None: "Unknown"}[value]`
abbrev pub status_of : Option ℕ → Result Error String
status_of none = ok "Unknown"
status_of (some zero) = ok "True"
status_of (some (suc zero)) = ok "False"
status_of (some (suc (suc n))) = err Error.key_error

module _ (a : Arithmetic) (onset end : Float) where
  -- `right["finish"] - left["finish"] > max_gap`
  abbrev pub too_far : Float → Reading → Reading → Bool
  too_far max_gap left right = Float.lt max_gap (a.minus right.finish left.finish)

  abbrev pub relative : Float → Float → Interval
  relative begin finish = record { begin = a.minus begin onset; finish = a.minus finish onset }

  -- What an interval with a value adds.
  abbrev pub add_interval : Float → ℕ → Interval → Sums → Sums
  add_interval offered_end n i s =
      let length = a.minus i.finish i.begin in
      let late = max_float (of_ℤ (pos 0)) (a.minus i.finish (max_float i.begin offered_end)) in
      record {
        total = a.plus s.total (a.times (of_ℤ (pos n)) length);
        post = a.plus s.post (a.times (of_ℤ (pos n)) late);
        covered = a.plus s.covered length;
        intervals = s.intervals ++ i ∷ [];
      }

  abbrev pub add_if_known : Float → Bool → Option ℕ → Option ℕ → Interval → Sums → Sums
  add_if_known offered_end false (some n) (some m) i s = add_interval offered_end n i s
  add_if_known offered_end _ _ _ i s = s

  abbrev pub add_pair : Float → Float → Reading → Reading → Sums → Sums
  add_pair offered_end max_gap left right s =
      let i = between onset end left right in
      if is_empty i
      then s
      else add_if_known offered_end (too_far max_gap left right) left.value right.value i s

  -- The loop over the neighbours.
  pub add_pairs : Float → Float → List Reading → Sums → Sums
  add_pairs offered_end max_gap [] s = s
  add_pairs offered_end max_gap (r ∷ []) s = s
  add_pairs offered_end max_gap (l ∷ r ∷ rs) s =
      add_pairs offered_end max_gap (r ∷ rs) (add_pair offered_end max_gap l r s)

  -- The loop over the intervals, from `cursor` on.
  pub unknown : Float → List Interval → List Interval
  unknown cursor [] = if Float.lt cursor end then relative cursor end ∷ [] else []
  unknown cursor (i ∷ is) =
      let rest = unknown i.finish is in
      if Float.lt cursor i.begin then relative cursor i.begin ∷ rest else rest

  abbrev pub coverage : Sums → Coverage
  coverage s =
      let complete = Float.lt (a.absolute (a.minus s.covered (a.minus end onset))) micro in
      record {
        pod_seconds = if complete then some s.total else none;
        covered_pod_seconds = s.total;
        post_load_pod_seconds = if complete then some s.post else none;
        covered_seconds = s.covered;
        unknown_seconds = a.minus (a.minus end onset) s.covered;
        unknown_intervals = unknown onset s.intervals;
        complete = complete;
      }

  unfoldable pub integrate : Float → Float → List Reading → Coverage
  integrate offered_end max_gap values = coverage (add_pairs offered_end max_gap values no_sums)

  -- Only a reading of 1, which says that the metrics are not ready, with a known successor.
  abbrev pub false_if_known : Bool → Option ℕ → Option ℕ → Interval → List Interval → List Interval
  false_if_known false (some (suc zero)) (some m) i found =
      add_false found (relative i.begin i.finish)
  false_if_known _ _ _ i found = found

  pub false_intervals : Float → List Reading → List Interval → List Interval
  false_intervals max_gap [] found = found
  false_intervals max_gap (r ∷ []) found = found
  false_intervals max_gap (l ∷ r ∷ rs) found =
      let i = between onset end l r in
      false_intervals max_gap (r ∷ rs)
        (if is_empty i then found else false_if_known (too_far max_gap l r) l.value r.value i found)

  -- `samples`, each with its interval and its status.
  unfoldable pub statuses : Float → List Reading → Result Error (List (Interval × String))
  statuses max_gap [] = ok []
  statuses max_gap (r ∷ rs) =
      let rest = statuses max_gap rs in
      let kept = do
        status ← status_of r.value
        others ← statuses max_gap rs
        ok ((relative r.start r.finish, status) ∷ others)
      in if le (a.minus onset max_gap) r.finish && le r.finish (a.plus end max_gap)
        then kept
        else rest

  unfoldable pub readiness_evidence : Float → List Reading → Result Error Readiness
  readiness_evidence max_gap values = do
    let c = integrate end max_gap values
    samples ← statuses max_gap values
    ok (record {
      sampled_false_seconds = c.covered_pod_seconds;
      sampled_false_intervals = false_intervals max_gap values [];
      unknown_seconds = c.unknown_seconds;
      unknown_intervals = c.unknown_intervals;
      complete = c.complete;
      samples = samples;
    })
