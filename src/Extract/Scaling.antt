-- ===== src/Extract/Scaling.antt =====
-- `compute_scaling_metrics` in hack/analyze/extract.py: scale events and milestones of the whole
-- experiment, read off the unchecked `prom_replicas` series. Times relative to the runner may be
-- negative, and so may a recorded value, so both are integers.
pub mod Peak
mod Tests
use mathlib.Core.Option
use mathlib.Core.List.{head?}
use predictive_hpa.Prelude.{
  ℕ, Bool, true, false, ◌&&◌, not, Option, none, some, List, [], ◌∷◌, if◌then◌else◌, keep_if,
  get_last?, last_or, Result, ok, err, ◌>>=◌,
}
use predictive_hpa.Prelude.Int.{ℤ, pos, ◌+ℤ◌, ◌-ℤ◌, ltb_ℤ, leb_ℤ, eq_ℤ}
use predictive_hpa.Float
use predictive_hpa.Float.{IntError}
use predictive_hpa.Extract.Measurement.{Point}

-- `rel` is `rel_s_from_k6_start`.
pub record ScaleEvent : Type 0 where
  pub rel : ℤ
  pub old : ℤ
  pub new : ℤ

pub data Warning : Type 0 where
  series_empty : Warning
  above_min_at_end : Warning
  no_scaledown : Warning

pub record Scaling : Type 0 where
  pub events : List ScaleEvent
  pub first_scaleup : Option ℤ
  pub convergence : Option ℤ
  pub steady_state : Option ℤ
  pub first_scaledown : Option ℤ
  pub full_scaledown : Option ℤ
  pub scaledown_completed : Bool
  pub warnings : List Warning

-- The loop over `prom_replicas[1:]`, which raises where `int(value)` does.
pub scale_events : ℕ → ℤ → List Point → Result IntError (List ScaleEvent)
scale_events start previous [] = ok []
scale_events start previous (p ∷ ps) = do
  replicas ← Float.int p.value
  rest ← scale_events start replicas ps
  ok (
      if eq_ℤ replicas previous
      then rest
      else record { rel = pos p.time -ℤ pos start; old = previous; new = replicas } ∷ rest)

abbrev pub is_scaleup : ScaleEvent → Bool
is_scaleup e = ltb_ℤ e.old e.new

abbrev pub is_scaledown : ScaleEvent → Bool
is_scaledown e = ltb_ℤ e.new e.old

pub max_ℤ : ℤ → ℤ → ℤ
max_ℤ a b = if ltb_ℤ a b then b else a

-- `max(e["to"] for e in events_out)`
pub highest : ℤ → List ScaleEvent → ℤ
unfolding max_ℤ
highest m [] = m
highest m (e ∷ es) = highest (max_ℤ m e.new) es

pub steady_state_of : List ScaleEvent → Option ℤ
unfolding highest
steady_state_of [] = none
steady_state_of (e ∷ es) = some (highest e.new es)

-- `first["rel_s_from_k6_start"] + k6_start_epoch - k6_stop_epoch`
abbrev pub after_stop : ℕ → ℕ → ScaleEvent → ℤ
after_stop start stop e = e.rel +ℤ pos start -ℤ pos stop

-- The branch `if scaleups`: first scale-up, peak and the first time that the peak is reached.
pub record Up : Type 0 where
  pub first : Option ℤ
  pub steady : Option ℤ
  pub convergence : Option ℤ

pub up_of : List ScaleEvent → List ScaleEvent → Up
unfolding steady_state_of
up_of events [] = record { first = none; steady = none; convergence = none }
up_of events (u ∷ us) =
    let steady = steady_state_of events in
    record {
      first = some u.rel;
      steady = steady;
      convergence =
          Option.bind steady
            (λ peak. Option.map (λ e. e.rel) (head? (keep_if (λ e. eq_ℤ e.new peak) events)));
    }

-- The branches on `scaledowns`.
pub record Down : Type 0 where
  pub first : Option ℤ
  pub full : Option ℤ
  pub completed : Bool
  pub warnings : List Warning

pub not_grown : Option ℤ → Bool
not_grown none = true
not_grown (some n) = leb_ℤ n (pos 1)

pub down_of : ℕ → ℕ → Option ℤ → ℤ → List ScaleEvent → Down
unfolding not_grown
down_of start stop steady last [] =
    if not_grown steady
    then record { first = none; full = none; completed = true; warnings = [] }
    else record { first = none; full = none; completed = false; warnings = no_scaledown ∷ [] }
down_of start stop steady last (d ∷ ds) =
    let first = some (after_stop start stop d) in
    elim (get_last? (keep_if (λ e. eq_ℤ e.new (pos 1)) (d ∷ ds))) [
      | none ↦ record {
        first = first;
        full = none;
        completed = false;
        warnings = above_min_at_end ∷ [];
      }
      | some t ↦
          if leb_ℤ last (pos 1)
          then record {
            first = first;
            full = some (after_stop start stop t);
            completed = true;
            warnings = [];
          }
          else record {
            first = first;
            full = none;
            completed = false;
            warnings = above_min_at_end ∷ [];
          }
    ]

-- The results for a series whose events are known, and whose last value is `last`.
pub scaling_of : ℕ → ℕ → ℤ → List ScaleEvent → Scaling
unfolding up_of down_of
scaling_of start stop last events =
    let up = up_of events (keep_if is_scaleup events) in
    let down = down_of start stop up.steady last (keep_if is_scaledown events) in
    record {
      events = events;
      first_scaleup = up.first;
      convergence = up.convergence;
      steady_state = up.steady;
      first_scaledown = down.first;
      full_scaledown = down.full;
      scaledown_completed = down.completed;
      warnings = down.warnings;
    }

-- `start` and `stop` are `k6_start_epoch` and `k6_stop_epoch`.
pub scaling : ℕ → ℕ → List Point → Result IntError Scaling
unfolding scale_events scaling_of
scaling start stop [] = ok (record {
  events = [];
  first_scaleup = none;
  convergence = none;
  steady_state = none;
  first_scaledown = none;
  full_scaledown = none;
  scaledown_completed = false;
  warnings = series_empty ∷ [];
})
scaling start stop (p ∷ ps) = do
  initial ← Float.int p.value
  events ← scale_events start initial ps
  last ← Float.int (last_or p ps).value
  ok (scaling_of start stop last events)
