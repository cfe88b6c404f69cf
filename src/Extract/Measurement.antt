-- ===== src/Extract/Measurement.antt =====
-- `compute_controlled_measurement` in hack/analyze/extract.py, once the window is known: the replica
-- samples are checked, and the window's events, integrals and milestones computed. The sums are
-- floats in the code; the samples are checked to be whole numbers first, so that the sums are exact.
pub mod Report
pub mod Checked
mod Ordered
pub mod Retained
pub mod Integrals
pub mod Changes
pub mod Levels
pub mod Bounds
pub mod Milestones
pub mod Rises
mod Tests
use predictive_hpa.Prelude.{
  ℕ, ◌+◌, ◌-◌, ◌*◌, Bool, true, false, ◌||◌, ◌&&◌, not, Option, none, some, List, [], ◌∷◌, min, max,
  ltb, leb, ◌==◌, if◌then◌else◌, keep_if, any_of, last_or, get_last?, Result, ok, err, ◌>>◌,
  raise_if,
}
use predictive_hpa.Prelude.Int.{pos, pos_part}
use predictive_hpa.Float
use predictive_hpa.Float.{Float}
use predictive_hpa.Timeline.{Sample, sample}
use predictive_hpa.Timeline.Hold.{next_time}
use predictive_hpa.Extract.Window.{Window}

-- One pair of `prom_replicas`.
pub record Point : Type 0 where
  pub time : ℕ
  pub value : Float

-- Why the samples give no measurement, in the order of the checks.
pub data Invalid : Type 0 where
  no_baseline : Invalid
  observation_gap : Invalid
  invalid_sample : Invalid
  duplicate_time : Invalid

-- Python's order on pairs.
abbrev pub lt_point : Point → Point → Bool
lt_point p q = ltb p.time q.time || (p.time == q.time && Float.lt p.value q.value)

pub insert : Point → List Point → List Point
insert p [] = p ∷ []
insert p (q ∷ qs) = if lt_point q p then q ∷ insert p qs else p ∷ q ∷ qs

-- `sorted(prom_replicas)`
pub sorted : List Point → List Point
unfolding insert
sorted [] = []
sorted (p ∷ ps) = insert p (sorted ps)

-- `not isfinite(v) or v < MIN_REPLICAS or v != int(v)`
abbrev pub is_invalid : Point → Bool
is_invalid p = elim (Float.int p.value) [
  | err e ↦ true
  | ok n ↦ Float.lt_int p.value (pos 1) || not (Float.eq_int p.value n)
]

-- `any(test(a, b) for a, b in zip(timeline, timeline[1:]))`
pub any_adjacent : (Point → Point → Bool) → Point → List Point → Bool
any_adjacent test p [] = false
any_adjacent test p (q ∷ qs) = test p q || any_adjacent test q qs

-- `int(value)` of a sample that passed the checks.
abbrev pub count_of : Float → ℕ
count_of v = elim (Float.int v) [ ok n ↦ pos_part n | err e ↦ 0 ]

abbrev pub whole : Point → Sample
whole p = sample p.time (count_of p.value)

pub wholes : List Point → List Sample
wholes [] = []
wholes (p ∷ ps) = whole p ∷ wholes ps

-- The checks on the baseline sample and the samples inside the window.
pub checked : Window → Point → List Point → Result Invalid (Sample × List Sample)
unfolding any_adjacent wholes
checked w base inside = do
  raise_if (ltb 15 (w.onset - base.time)) no_baseline
  raise_if
      (ltb 15 (w.tail_end - (last_or base inside).time)
        || any_adjacent (λ p q. ltb 15 (q.time - p.time)) base inside)
      observation_gap
  raise_if (is_invalid base || any_of is_invalid inside) invalid_sample
  raise_if (any_adjacent (λ p q. leb q.time p.time) base inside) duplicate_time
  ok (whole base, wholes inside)

-- `baseline` and `timeline`: the last sample up to onset, and those inside the window.
pub baseline : Window → List Point → Option Point
baseline w samples = get_last? (keep_if (λ p. leb p.time w.onset) samples)

pub inside_window : Window → List Point → List Point
inside_window w = keep_if (λ p. ltb w.onset p.time && leb p.time w.tail_end)

pub from_baseline : Window → Option Point → List Point → Result Invalid (Sample × List Sample)
unfolding checked
from_baseline w none inside = err no_baseline
from_baseline w (some base) inside = checked w base inside

pub timeline : Window → List Point → Result Invalid (Sample × List Sample)
unfolding sorted from_baseline baseline inside_window
timeline w points =
    let samples = sorted points in from_baseline w (baseline w samples) (inside_window w samples)

pub record Event : Type 0 where
  pub time : ℕ
  pub after_onset : ℕ
  pub old : ℕ
  pub new : ℕ

-- The loop over `timeline[1:]` with `previous`.
pub events : ℕ → ℕ → List Sample → List Event
events onset previous [] = []
events onset previous (s ∷ ss) =
    let rest = events onset s.replicas ss in
    if s.replicas == previous
    then rest
    else record { time = s.time; after_onset = s.time - onset; old = previous; new = s.replicas }
      ∷ rest

pub record Totals : Type 0 where
  pub pod_seconds : ℕ
  pub post_load : ℕ
  pub excess : ℕ
  pub above_min : ℕ
  pub at_offered_end : ℕ

-- One round of the loop over `enumerate(timeline)`; a difference of seconds below 0 counts as 0.
pub add_sample : Window → Totals → Sample → ℕ → Totals
add_sample w acc s next =
    let segment_start = max s.time w.onset in
    let segment_end = min next w.tail_end in
    let post_seconds = segment_end - max segment_start w.offered_end in
    record {
      pod_seconds = acc.pod_seconds + s.replicas * (segment_end - segment_start);
      post_load = acc.post_load + s.replicas * post_seconds;
      excess = acc.excess + (s.replicas - 1) * post_seconds;
      above_min = if ltb 1 s.replicas then acc.above_min + post_seconds else acc.above_min;
      at_offered_end = if leb s.time w.offered_end then s.replicas else acc.at_offered_end;
    }

pub accumulate : Window → Totals → List Sample → Totals
unfolding add_sample
accumulate w acc [] = acc
accumulate w acc (s ∷ ss) = accumulate w (add_sample w acc s (next_time w.tail_end ss)) ss

abbrev pub no_totals : ℕ → Totals
no_totals initial = record {
  pod_seconds = 0;
  post_load = 0;
  excess = 0;
  above_min = 0;
  at_offered_end = initial;
}
