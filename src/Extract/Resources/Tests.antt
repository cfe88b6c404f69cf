-- ===== src/Extract/Resources/Tests.antt =====
-- Three samples, of which the second holds two replicas past the end of the load.
use predictive_hpa.Prelude.{◌≡◌, refl, some, List, [], ◌∷◌, map, ok, arith, ◌-◌, ◌^◌, max}
use predictive_hpa.Prelude.Int.{pos, ◌-ℤ◌}
use predictive_hpa.Float.{Float, finite, of_ℤ, Operations}
use predictive_hpa.Extract.Loaders.Percentile.Exact.{operations}
use predictive_hpa.Timeline.{held}
use predictive_hpa.Timeline.Integral.{integral}
use predictive_hpa.Extract.Measurement.{Point}
use predictive_hpa.Extract.Resources.{
  segment, waste_window, ResourceMetrics, span_from, add_trapezoids, average, resource_metrics,
}
use predictive_hpa.Extract.Resources.Waste.{
  above_one, replicas_of, sample_of, IsGivenFor, resource_metrics-IsMeasured,
}

abbrev first : Point
first = record { time = 100; value = finite (pos 1) 0 }

abbrev later : List Point
later =
    record { time = 115; value = finite (pos 2) 0 }
    ∷ record { time = 130; value = finite (pos 1) 0 }
    ∷ []

-- Doubles, with results rounded down.
abbrev exact : Operations
exact = operations (2 ^ 1074)

measured : (m : ResourceMetrics) × (resource_metrics exact 120 140 (first ∷ later) ≡ ok m)
unfolding resource_metrics add_trapezoids average span_from waste_window segment ◌-ℤ◌
measured = (_, refl)

area_and_waste :
    (measured.0.pod_seconds ≡ some (of_ℤ (pos 45))) × (measured.0.waste_window_s ≡ some 10)
unfolding measured
area_and_waste = (refl, refl)

resource_metrics-IsMeasured_example :
    let start = max 100 120 in
    (m : ResourceMetrics) × (resource_metrics exact 120 140 (first ∷ later) ≡ ok m)
    × ((area : Float) × (m.pod_seconds ≡ some area))
    × IsGivenFor later m.avg_replicas
    × (m.waste_window_s
        ≡ some (
            integral
              (λ t. above_one (held (replicas_of first.value) (map sample_of later) t))
              start
              (140 - start)))
resource_metrics-IsMeasured_example =
    resource_metrics-IsMeasured exact 120 140 first later (refl, (refl, (refl, tt))) (omega arith)
      (omega arith)
