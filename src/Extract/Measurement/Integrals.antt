-- ===== src/Extract/Measurement/Integrals.antt =====
-- The sums of `compute_controlled_measurement` (hack/analyze/extract.py) are the integrals, second by
-- second, of the replica count that holds.
use native.Mathlib.Nat.{zero-add}
use predictive_hpa.Prelude.{
  ℕ, ◌+◌, ◌-◌, ◌≤◌, ◌≡◌, ◌∙◌, List, [], ◌∷◌, arith, max, ltb, if◌then◌else◌, ok,
}
use predictive_hpa.Timeline.{Sample, held}
use predictive_hpa.Timeline.Integral.{integral}
use predictive_hpa.Timeline.Hold.{next_time, hold_sum, hold_sum-integral}
use predictive_hpa.Extract.Window.{Window}
use predictive_hpa.Extract.Measurement.{Point, Totals, timeline, accumulate, add_sample, no_totals}
use predictive_hpa.Extract.Measurement.Checked.{timeline-IsChecked}
use predictive_hpa.Extract.Measurement.Report.{summarize}

-- One where more than `MIN_REPLICAS` replicas run.
abbrev pub above_one : ℕ → ℕ
above_one r = if ltb 1 r then 1 else 0

module _ (w : Window) (ordered : w.onset ≤ w.offered_end) where
  accumulate-pod_seconds :
      (acc : Totals) (ss : List Sample)
      → (accumulate w acc ss).pod_seconds
        ≡ acc.pod_seconds + hold_sum (λ r. r) w.onset w.tail_end ss
  unfolding accumulate hold_sum
  accumulate-pod_seconds acc [] = omega arith
  accumulate-pod_seconds acc (s ∷ ss) =
      omega (arith, accumulate-pod_seconds (add_sample w acc s (next_time w.tail_end ss)) ss)

  clipped : (t : ℕ) → max (max t w.onset) w.offered_end ≡ max t w.offered_end
  clipped t = omega arith

  accumulate-post_load :
      (acc : Totals) (ss : List Sample)
      → (accumulate w acc ss).post_load
        ≡ acc.post_load + hold_sum (λ r. r) w.offered_end w.tail_end ss
  unfolding accumulate hold_sum
  accumulate-post_load acc [] = omega arith
  accumulate-post_load acc (s ∷ ss) =
      rw (accumulate-post_load (add_sample w acc s (next_time w.tail_end ss)) ss, clipped s.time)
        (omega arith)

  accumulate-excess :
      (acc : Totals) (ss : List Sample)
      → (accumulate w acc ss).excess
        ≡ acc.excess + hold_sum (λ r. r - 1) w.offered_end w.tail_end ss
  unfolding accumulate hold_sum
  accumulate-excess acc [] = omega arith
  accumulate-excess acc (s ∷ ss) =
      rw (accumulate-excess (add_sample w acc s (next_time w.tail_end ss)) ss, clipped s.time)
        (omega arith)

  accumulate-above_min :
      (acc : Totals) (ss : List Sample)
      → (accumulate w acc ss).above_min
        ≡ acc.above_min + hold_sum above_one w.offered_end w.tail_end ss
  unfolding accumulate hold_sum
  accumulate-above_min acc [] = omega arith
  accumulate-above_min acc (s ∷ ss) =
      rw (accumulate-above_min (add_sample w acc s (next_time w.tail_end ss)) ss, clipped s.time)
        (ground arith)

module _ (w : Window) (points : List Point) (base : Sample) (inside : List Sample) where
  -- The four sums are integrals, second by second, of the count that holds: of the count itself from
  -- onset to the end of the tail and from the end of the offered load, of the count less one, and of
  -- the seconds with more than one replica. Nothing is counted outside the window or twice.
  pub summarize-integrals :
      w.onset ≤ w.offered_end
      → timeline w points ≡ ok (base, inside)
      → let m = summarize w base inside in
        let count = held base.replicas inside in
        let tail = w.tail_end - w.offered_end in
        (m.pod_seconds ≡ integral count w.onset (w.tail_end - w.onset))
        × (m.post_load ≡ integral count w.offered_end tail)
        × (m.excess ≡ integral (λ t. count t - 1) w.offered_end tail)
        × (m.above_min ≡ integral (λ t. above_one (count t)) w.offered_end tail)
  unfolding summarize
  summarize-integrals h e =
      let c = timeline-IsChecked w points e in
      let whole : max base.time w.onset ≡ w.onset = omega arith in
      let post : max base.time w.offered_end ≡ w.offered_end = omega arith in
      let over =
        λ (f : ℕ → ℕ) (a : ℕ). hold_sum-integral f a w.tail_end base inside c.ascending c.ends_by in
      let start = no_totals base.replicas in
      (
        accumulate-pod_seconds w h start (base ∷ inside)
            ∙ zero-add _
            ∙ rw whole at (over (λ r. r) w.onset),
        accumulate-post_load w h start (base ∷ inside)
            ∙ zero-add _
            ∙ rw post at (over (λ r. r) w.offered_end),
        accumulate-excess w h start (base ∷ inside)
            ∙ zero-add _
            ∙ rw post at (over (λ r. r - 1) w.offered_end),
        accumulate-above_min w h start (base ∷ inside)
            ∙ zero-add _
            ∙ rw post at (over above_one w.offered_end),
      )
