-- ===== src/Extract/Measurement/Bounds.antt =====
-- Bounds on the sums of `compute_controlled_measurement` (hack/analyze/extract.py) in an accepted
-- window.
use predictive_hpa.Prelude.{ℕ, ◌+◌, ◌-◌, ◌*◌, ◌≤◌, ◌≡◌, refl, List, arith, ok}
use predictive_hpa.Timeline.{Sample, held}
use predictive_hpa.Timeline.Integral.{
  integral, integral-const, integral-le, integral-ext, integral-add, integral-split,
}
use predictive_hpa.Extract.Window.{Window}
use predictive_hpa.Extract.Window.Bounds.{Fits}
use predictive_hpa.Extract.Measurement.{Point, timeline}
use predictive_hpa.Extract.Measurement.Report.{summarize}
use predictive_hpa.Extract.Measurement.Levels.{summarize-levels}
use predictive_hpa.Extract.Measurement.Integrals.{summarize-integrals, above_one}

-- A count between 1 and `peak` over `n` seconds.
module _ (count : ℕ → ℕ) (peak : ℕ) (level : (t : ℕ) → (1 ≤ count t) × (count t ≤ peak))
    (a n : ℕ) where
  integral_bounds : (n ≤ integral count a n) × (integral count a n ≤ peak * n)
  integral_bounds =
      let low = integral-le (λ _. 1) count a n (λ t p q. (level t).0) in
      let one = integral-const (λ _. 1) 1 a n (λ t p q. refl) in
      let high = integral-le count (λ _. peak) a n (λ t p q. (level t).1) in
      let all = integral-const (λ _. peak) peak a n (λ t p q. refl) in omega arith

  integral_excess : integral count a n ≡ integral (λ t. count t - 1) a n + n
  integral_excess =
      let split = integral-add (λ t. count t - 1) (λ _. 1) a n in
      let one = integral-const (λ _. 1) 1 a n (λ t p q. refl) in
      let same =
        integral-ext count (λ t. count t - 1 + 1) a n (λ t p q. let l = level t in omega arith) in
      omega arith

  integral_above : integral (λ t. above_one (count t)) a n ≤ n
  integral_above =
      let high = integral-le (λ t. above_one (count t)) (λ _. 1) a n (λ t p q. ground arith) in
      let one = integral-const (λ _. 1) 1 a n (λ t p q. refl) in omega arith

module _ (w : Window) (points : List Point) (base : Sample) (inside : List Sample) where
  -- In an accepted window: the window lasts the schedule and 330 s; the Pod-seconds lie between the
  -- duration and the duration times the peak; those after the load are part of them, and are the
  -- excess and one for each of the 360 s; and the time above the minimum is at most 360 s.
  pub summarize_bounds :
      (schedule : ℕ)
      → Fits schedule w
      → 30 ≤ schedule
      → timeline w points ≡ ok (base, inside)
      → let m = summarize w base inside in
        (m.window_duration ≡ schedule + 330)
        × (m.window_duration ≤ m.pod_seconds)
        × (m.pod_seconds ≤ m.peak * m.window_duration)
        × (m.post_load ≤ m.pod_seconds)
        × (m.post_load ≡ m.excess + 360)
        × (m.above_min ≤ 360)
  unfolding summarize
  summarize_bounds schedule f h e =
      let m = summarize w base inside in
      let count = held base.replicas inside in
      let ordered : w.onset ≤ w.offered_end = omega arith in
      let tail : w.tail_end - w.offered_end ≡ 360 = omega arith in
      let level = (summarize-levels w points base inside ordered e).3 in
      let (pod, post, excess, above) = summarize-integrals w points base inside ordered e in
      let early = w.offered_end - w.onset in
      let parts = integral-split count w.onset early (w.tail_end - w.offered_end) in
      let all : early + (w.tail_end - w.offered_end) ≡ w.tail_end - w.onset = omega arith in
      let at : w.onset + early ≡ w.offered_end = omega arith in
      let whole = rw (all, at) at parts in
      let (low, high) = integral_bounds count m.peak level w.onset (w.tail_end - w.onset) in
      let over = integral_excess count m.peak level w.offered_end (w.tail_end - w.offered_end) in
      let time = integral_above count m.peak level w.offered_end (w.tail_end - w.offered_end) in
      (omega arith, omega arith, rw pod high, omega arith, omega arith, omega arith)
