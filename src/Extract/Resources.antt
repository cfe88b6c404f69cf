-- ===== src/Extract/Resources.antt =====
-- hack/analyze/extract.py, compute_resource_metrics: the pod-seconds of the experiment, the average
-- count of replicas, and the seconds after the load for which a sample above the minimum holds.
use predictive_hpa.Prelude.{
  ℕ, ◌+◌, ◌-◌, Bool, Option, some, none, List, [], ◌∷◌, Result, ok, err, ◌>>=◌, if◌then◌else◌, leb,
  min, max,
}
use predictive_hpa.Prelude.Int.{ℤ, pos, ◌-ℤ◌, ltb_ℤ}
use predictive_hpa.Float
use predictive_hpa.Float.{Float, of_ℤ, IntError, Operations}
use predictive_hpa.Extract.Measurement.{Point}
mod Waste
mod Tests

-- The time of the next sample, or the end.
abbrev pub next_point : ℕ → List Point → ℕ
next_point end_epoch [] = end_epoch
next_point end_epoch (p ∷ ps) = p.time

module _ (k6_stop_epoch end_epoch : ℕ) where
  -- What one sample adds: the part of the window that it covers, if its value is above the minimum.
  unfoldable pub segment : Point → ℕ → Result IntError ℕ
  segment p t_next =
      let seg_start = max p.time k6_stop_epoch in
      let seg_end = min t_next end_epoch in
      let above = do
        replicas ← Float.int p.value
        ok (if ltb_ℤ (pos 1) replicas then seg_end - seg_start else 0)
      in if leb seg_end seg_start then ok 0 else above

  unfoldable pub waste_window : List Point → Result IntError ℕ
  waste_window [] = ok 0
  waste_window (p ∷ ps) = do
    now ← segment p (next_point end_epoch ps)
    rest ← waste_window ps
    ok (now + rest)

-- The returned dictionary.
pub record ResourceMetrics : Type 0 where
  pub pod_seconds : Option Float
  pub avg_replicas : Option Float
  pub waste_window_s : Option ℕ

-- `prom_replicas[-1][0] - prom_replicas[0][0]`, which is 0 for a single sample.
unfoldable pub span_from : ℕ → Point → List Point → ℤ
span_from start p [] = pos p.time -ℤ pos start
span_from start p (q ∷ ps) = span_from start q ps

module _ (o : Operations) where
  -- `(v0 + v1) / 2.0 * (t1 - t0)`
  abbrev pub trapezoid : Point → Point → Float
  trapezoid p q =
      o.times (o.divide (o.plus p.value q.value) (of_ℤ (pos 2))) (of_ℤ (pos q.time -ℤ pos p.time))

  -- The loop that adds to `pod_seconds`.
  unfoldable pub add_trapezoids : Float → Point → List Point → Float
  add_trapezoids total p [] = total
  add_trapezoids total p (q ∷ ps) = add_trapezoids (o.plus total (trapezoid p q)) q ps

  -- `avg_replicas`, rounded.
  unfoldable pub average : Float → ℤ → Option Float
  average total duration =
      if ltb_ℤ (pos 0) duration then some (o.round (o.divide total (of_ℤ duration)) 2) else none

  unfoldable pub resource_metrics : ℕ → ℕ → List Point → Result IntError ResourceMetrics
  resource_metrics k6_stop_epoch end_epoch [] =
      ok (record { pod_seconds = none; avg_replicas = none; waste_window_s = none })
  resource_metrics k6_stop_epoch end_epoch (p ∷ ps) =
      let total = add_trapezoids (of_ℤ (pos 0)) p ps in
      do
        seconds ← waste_window k6_stop_epoch end_epoch (p ∷ ps)
        ok (record {
          pod_seconds = some (o.round total 1);
          avg_replicas = average total (span_from p.time p ps);
          waste_window_s = some seconds;
        })
