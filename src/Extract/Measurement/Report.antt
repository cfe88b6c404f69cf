-- ===== src/Extract/Measurement/Report.antt =====
-- The scalar results of `compute_controlled_measurement` in hack/analyze/extract.py, read off the
-- checked timeline. The average is kept as its numerator, `pod_seconds`, over `window_duration`.
use predictive_hpa.Prelude.{
  ℕ, ◌-◌, Bool, ◌&&◌, Option, none, some, List, [], ◌∷◌, max, ltb, leb, ◌==◌, if◌then◌else◌,
  keep_if, last_or, get_last?, Result, ok, ◌>>=◌,
}
use mathlib.Core.Option
use mathlib.Core.List.{head?}
use predictive_hpa.Timeline.{Sample}
use predictive_hpa.Extract.Window.{Window}
use predictive_hpa.Extract.Measurement.{
  Point, Invalid, Event, timeline, events, accumulate, no_totals,
}

pub record Measurement : Type 0 where
  pub window_duration : ℕ
  pub events : List Event
  pub initial : ℕ
  pub at_offered_end : ℕ
  pub final : ℕ
  pub peak : ℕ
  pub first_scaleup : Option ℕ
  pub first_scaledown : Option ℕ
  pub full_scaledown : Option ℕ
  pub scaledown_completed : Bool
  pub pod_seconds : ℕ
  pub post_load : ℕ
  pub excess : ℕ
  pub above_min : ℕ

-- `max(v for _, v in timeline)`
unfoldable pub peak_of : ℕ → List Sample → ℕ
peak_of m [] = m
peak_of m (s ∷ ss) = peak_of (max m s.replicas) ss

abbrev pub is_scaleup : Event → Bool
is_scaleup e = ltb e.old e.new

abbrev pub is_post_down : ℕ → Event → Bool
is_post_down offered_end e = leb offered_end e.time && ltb e.new e.old

abbrev since : ℕ → Event → ℕ
since t e = e.time - t

-- `returns_to_min[-1]["time_unix"] - offered_end if returns_to_min else 0`
abbrev pub full_scaledown_of : ℕ → Option Event → Option ℕ
full_scaledown_of offered_end none = some 0
full_scaledown_of offered_end (some e) = some (e.time - offered_end)

unfoldable pub summarize : Window → Sample → List Sample → Measurement
unfolding peak_of
summarize w base inside =
    let found = events w.onset base.replicas inside in
    let totals = accumulate w (no_totals base.replicas) (base ∷ inside) in
    let post_downs = keep_if (is_post_down w.offered_end) found in
    let returns_to_min = keep_if (λ e. e.new == 1) post_downs in
    let final = (last_or base inside).replicas in
    let completed = final == 1 in
    record {
      window_duration = w.tail_end - w.onset;
      events = found;
      initial = base.replicas;
      at_offered_end = totals.at_offered_end;
      final = final;
      peak = peak_of base.replicas inside;
      first_scaleup = Option.map (λ e. e.after_onset) (head? (keep_if is_scaleup found));
      first_scaledown = Option.map (since w.offered_end) (head? post_downs);
      full_scaledown =
          if completed then full_scaledown_of w.offered_end (get_last? returns_to_min) else none;
      scaledown_completed = completed;
      pod_seconds = totals.pod_seconds;
      post_load = totals.post_load;
      excess = totals.excess;
      above_min = totals.above_min;
    }

-- The measurement, or why the samples give none.
pub measure : Window → List Point → Result Invalid Measurement
measure w points = do (base, inside) ← timeline w points; ok (summarize w base inside)
