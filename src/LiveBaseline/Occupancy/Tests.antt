-- ===== src/LiveBaseline/Occupancy/Tests.antt =====
-- Readings at 90, 110, 130 and 150 in a window from 100 to 140, of which the third has no value.
use predictive_hpa.Prelude.{
  ℕ, ◌≡◌, refl, false, Option, some, none, List, [], ◌∷◌, ◌-◌, ◌*◌, suc, ltb, if◌then◌else◌,
}
use predictive_hpa.Prelude.Int.{pos, negsuc, ◌+ℤ◌}
use predictive_hpa.Float.{Float, finite, of_ℤ, nan}
use predictive_hpa.Latency.Values.{Arithmetic}
use predictive_hpa.LiveBaseline.Samples.{Reading}
use predictive_hpa.LiveBaseline.Occupancy.{
  Interval, Coverage, add_pairs, unknown, false_intervals, integrate,
}
use predictive_hpa.LiveBaseline.Occupancy.Known.{IsSumOf, integrate-IsSumOf}

-- Whole numbers are enough here.
abbrev sum_of : Float → Float → Float
sum_of (finite n k) (finite m l) = finite (n +ℤ m) 0
sum_of _ _ = nan

abbrev difference : Float → Float → Float
difference (finite (pos n) k) (finite (pos m) l) =
    if ltb n m then finite (negsuc (m - n - 1)) 0 else finite (pos (n - m)) 0
difference _ _ = nan

abbrev magnitude : Float → Float
magnitude (finite (negsuc n) k) = of_ℤ (pos (suc n))
magnitude x = x

abbrev product : Float → Float → Float
product (finite (pos n) k) (finite (pos m) l) = finite (pos (n * m)) 0
product _ _ = nan

abbrev arithmetic : Arithmetic
arithmetic = record { minus = difference; plus = sum_of; times = product; absolute = magnitude }

abbrev reading : ℕ → Option ℕ → Reading
reading t v = record { start = of_ℤ (pos (t - 1)); finish = of_ℤ (pos t); value = v }

abbrev readings : List Reading
readings = reading 90 (some 1) ∷ reading 110 (some 1) ∷ reading 130 (some 0) ∷ reading 150 none ∷ []

abbrev interval : ℕ → ℕ → Interval
interval begin finish = record { begin = of_ℤ (pos begin); finish = of_ℤ (pos finish) }

-- The last ten seconds are unknown, so no total is reported.
abbrev partial : Coverage
partial = record {
  pod_seconds = none;
  covered_pod_seconds = of_ℤ (pos 30);
  post_load_pod_seconds = none;
  covered_seconds = of_ℤ (pos 30);
  unknown_seconds = of_ℤ (pos 10);
  unknown_intervals = interval 30 40 ∷ [];
  complete = false;
}

abbrev sum : List Reading → Coverage
sum = integrate arithmetic (of_ℤ (pos 100)) (of_ℤ (pos 140)) (of_ℤ (pos 120)) (of_ℤ (pos 20))

ten_unknown : sum readings ≡ partial
unfolding integrate add_pairs unknown ◌+ℤ◌
ten_unknown = refl

-- The two intervals in which the metrics were not ready are one.
merged :
    false_intervals arithmetic (of_ℤ (pos 100)) (of_ℤ (pos 140)) (of_ℤ (pos 20)) readings []
    ≡ interval 0 30 ∷ []
unfolding false_intervals
merged = refl

integrate-IsSumOf_example :
    IsSumOf arithmetic
      (of_ℤ (pos 100))
      (of_ℤ (pos 140))
      (of_ℤ (pos 20))
      (of_ℤ (pos 120))
      readings
      (sum readings)
integrate-IsSumOf_example =
    integrate-IsSumOf arithmetic (of_ℤ (pos 100)) (of_ℤ (pos 140)) (of_ℤ (pos 20)) (of_ℤ (pos 120))
      readings
