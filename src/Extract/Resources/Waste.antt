-- ===== src/Extract/Resources/Waste.antt =====
-- hack/analyze/extract.py, compute_resource_metrics: the waste window is the number of seconds after
-- the load in which more than one replica holds.
use predictive_hpa.Prelude.{
  ℕ, ◌-◌, ◌*◌, ◌<◌, ◌≡◌, refl, ap, Bool, true, false, Option, some, none, List, [], ◌∷◌, map, ok,
  bind_ok, if◌then◌else◌, leb, ltb, min, max, All, Bool-cases, inl, inr, arith, leb→le,
}
use predictive_hpa.Prelude.Int.{ℤ, pos, negsuc, pos_part, ltb_ℤ, ◌-ℤ◌}
use predictive_hpa.Float
use predictive_hpa.Float.{
  Float, finite, nan, inf, neg_inf, of_ℤ, truncate, isfinite, IntError, Operations,
}
use predictive_hpa.Timeline.{Sample, held, Ascending, EndsBy}
use predictive_hpa.Timeline.Integral.{integral}
use predictive_hpa.Timeline.Hold.{next_time, hold_sum, hold_sum-integral}
use predictive_hpa.Extract.Measurement.{Point}
use predictive_hpa.Extract.Resources.{
  next_point, segment, waste_window, ResourceMetrics, span_from, average, resource_metrics,
}

-- One where more than one replica runs.
abbrev pub above_one : ℕ → ℕ
above_one r = if ltb 1 r then 1 else 0

-- The whole replicas of a sample, none where its value is negative or no number.
abbrev pub replicas_of : Float → ℕ
replicas_of (finite n k) = pos_part (truncate n k)
replicas_of _ = 0

abbrev pub sample_of : Point → Sample
sample_of p = record { time = p.time; replicas = replicas_of p.value }

int_returns :
    (x : Float) → isfinite x ≡ true → (n : ℤ) × (Float.int x ≡ ok n) × (replicas_of x ≡ pos_part n)
int_returns (finite n k) h = (truncate n k, refl, refl)
int_returns nan h = cc
int_returns inf h = cc
int_returns neg_inf h = cc

above-pos_part : (n : ℤ) → ltb_ℤ (pos 1) n ≡ ltb 1 (pos_part n)
above-pos_part (pos n) = ground arith
above-pos_part (negsuc n) = ground arith

next_point-next_time : (b : ℕ) (ps : List Point) → next_point b ps ≡ next_time b (map sample_of ps)
next_point-next_time b [] = refl
next_point-next_time b (p ∷ ps) = refl

weigh : (t : Bool) (m : ℕ) → (if t then m else 0) ≡ (if t then 1 else 0) * m
weigh true m = omega arith
weigh false m = omega arith

module _ (a b : ℕ) where
  segment-eq :
      (p : Point) (t : ℕ)
      → isfinite p.value ≡ true
      → segment a b p t ≡ ok (above_one (replicas_of p.value) * (min t b - max p.time a))
  unfolding segment
  segment-eq p t h = elim (Bool-cases (leb (min t b) (max p.time a))) [
    | inl gone ↦
        let z : min t b - max p.time a ≡ 0 = omega (arith, leb→le _ _ gone) in
        rw (gone, z) (ap ok (omega arith))
    | inr left ↦
        let (n, found, count) = int_returns p.value h in
        rw (left, found, count, above-pos_part n) (ap ok (weigh (ltb 1 (pos_part n)) _))
  ]

  waste_window-eq :
      (ps : List Point)
      → All (λ p. isfinite p.value ≡ true) ps
      → waste_window a b ps ≡ ok (hold_sum above_one a b (map sample_of ps))
  unfolding waste_window hold_sum
  waste_window-eq [] h = refl
  waste_window-eq (p ∷ ps) h =
      rw (segment-eq p (next_point b ps) h.0, waste_window-eq ps h.1, next_point-next_time b ps)
        refl

-- Samples whose times ascend span no time if there is one, and some if there are more.
span_from_pos :
    (start : ℕ) (p : Point) (ps : List Point)
    → start < p.time
    → Ascending p.time (map sample_of ps)
    → ltb_ℤ (pos 0) (span_from start p ps) ≡ true
unfolding span_from ◌-ℤ◌
span_from_pos start p [] h asc = ground arith
span_from_pos start p (q ∷ ps) h asc = span_from_pos start q ps (omega (arith, asc.0)) asc.1

-- An average is given for two samples or more.
abbrev pub IsGivenFor : List Point → Option Float → Type 0
IsGivenFor [] average = average ≡ none
IsGivenFor (p ∷ ps) average = (x : Float) × (average ≡ some x)

no_span : (p : Point) → ltb_ℤ (pos 0) (span_from p.time p []) ≡ false
unfolding span_from ◌-ℤ◌
no_span p = ground arith

span_from-average :
    (o : Operations) (total : Float) (p : Point) (ps : List Point)
    → Ascending p.time (map sample_of ps)
    → IsGivenFor ps (average o total (span_from p.time p ps))
unfolding average span_from
span_from-average o total p [] asc = rw (no_span p) refl
span_from-average o total p (q ∷ ps) asc = (
  o.round (o.divide total (of_ℤ (span_from p.time p (q ∷ ps)))) 2,
  rw (span_from_pos p.time q ps asc.0 asc.1) refl,
)

-- For samples with finite values, whose times ascend and do not pass the end, the metrics are
-- returned, without a division by zero: pod-seconds are given, an average is given if there are
-- two samples or more, and the waste window is the number of seconds from the first sample or the
-- end of the load, whichever is later, up to the end, in which more than one replica holds.
pub resource_metrics-IsMeasured :
    (o : Operations) (k6_stop end_epoch : ℕ) (p : Point) (ps : List Point)
    → All (λ q. isfinite q.value ≡ true) (p ∷ ps)
    → Ascending p.time (map sample_of ps)
    → EndsBy end_epoch (map sample_of ps)
    → let start = max p.time k6_stop in
      (m : ResourceMetrics) × (resource_metrics o k6_stop end_epoch (p ∷ ps) ≡ ok m)
      × ((area : Float) × (m.pod_seconds ≡ some area))
      × IsGivenFor ps m.avg_replicas
      × (m.waste_window_s
          ≡ some (
              integral
                (λ t. above_one (held (replicas_of p.value) (map sample_of ps) t))
                start
                (end_epoch - start)))
unfolding resource_metrics
resource_metrics-IsMeasured o a b p ps h asc ends = (
  _,
  bind_ok _ (waste_window-eq a b (p ∷ ps) h) refl,
  (_, refl),
  span_from-average o _ p ps asc,
  ap some (hold_sum-integral above_one a b (sample_of p) (map sample_of ps) asc ends),
)
