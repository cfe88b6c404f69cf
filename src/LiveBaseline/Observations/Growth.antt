-- ===== src/LiveBaseline/Observations/Growth.antt =====
-- hack/analyze/live_baseline.py, analyze: the first growth that is reported.
use predictive_hpa.Prelude.{
  ℕ, true, false, not, ◌||◌, ◌≡◌, inl, inr, sym, ap, Option, some, List, [], ◌∷◌, Any, Bool-cases,
  or_false,
}
use predictive_hpa.Float.{Float}
use predictive_hpa.Latency.Values.{Arithmetic, le}
use predictive_hpa.LiveBaseline.Samples.{Reading}
use predictive_hpa.LiveBaseline.Occupancy.{Interval}
use predictive_hpa.LiveBaseline.Observations.{has_value, exceeds, find_growth}
use mathlib.Core.Option.{some-injective}

module _ (a : Arithmetic) (onset : Float) where
  -- A reading after the onset that exceeds the baseline and ends the interval.
  abbrev pub Ends : Option ℕ → Interval → Reading → Type 0
  Ends baseline i r =
      (le r.finish onset ≡ false)
      × (exceeds r.value baseline ≡ true)
      × (i.finish ≡ a.minus r.finish onset)

  -- The interval that the search finds ends with a reading after the onset that exceeds the baseline.
  find_growth-Ends :
      (baseline : Option ℕ) (previous : Reading) (rs : List Reading) (i : Interval)
      → find_growth a onset baseline previous rs ≡ some i
      → Any (Ends baseline i) rs
  unfolding find_growth
  find_growth-Ends baseline previous [] i h = cc
  find_growth-Ends baseline previous (r ∷ rs) i h =
      elim (Bool-cases (le r.finish onset || not (has_value r.value))) [
        | inl e ↦ inr (find_growth-Ends baseline previous rs i (rw e at h))
        | inr e ↦ elim (Bool-cases (exceeds r.value baseline)) [
          | inl f ↦ inl (
            (or_false (le r.finish onset) (not (has_value r.value)) e).0,
            f,
            sym (ap (λ (j : Interval). j.finish) (some-injective _ _ (rw (e, f) at h))),
          )
          | inr f ↦ inr (find_growth-Ends baseline r rs i (rw (e, f) at h))
        ]
      ]
