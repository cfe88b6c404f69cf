-- ===== src/Extract/Measurement/Retained.antt =====
-- hack/analyze/extract.py, compute_controlled_measurement: which samples the timeline retains.
use mathlib.Core.Path.{subst}
use predictive_hpa.Prelude.{
  ℕ, zero, suc, ◌-◌, ◌≤◌, ◌<◌, ◌≡◌, refl, ap, true, false, ◌||◌, ◌&&◌, Option, none, some, List, [],
  ◌∷◌, arith, ltb, leb, any_of, last_or, keep_if, All, All-keep, All-map, All-Any, All-get_last?,
  Any, inl, inr, ok, ok-injective, or_false,
}
use predictive_hpa.Prelude.Inversion.{◌>>=◌, not_raised}
use predictive_hpa.Prelude.Int.{pos, negsuc}
use predictive_hpa.Float.{Float, nan, inf, neg_inf, finite}
use predictive_hpa.Timeline.{Sample}
use predictive_hpa.Extract.Window.{Window}
use predictive_hpa.Extract.Measurement.{
  Point, Invalid, sorted, timeline, checked, baseline, inside_window, from_baseline, is_invalid,
  any_adjacent, count_of, whole, wholes, no_baseline, observation_gap, invalid_sample,
  duplicate_time,
}
use predictive_hpa.Extract.Measurement.Checked.{IsChecked, is_invalid-count, timeline-IsChecked}
use predictive_hpa.Extract.Measurement.Ordered.{
  sorted-Rising, sorted-All_parts, sorted-All, keep_if-Rising, Rising-get_last?, All-of_kept,
}

-- The sample was read at the time with a positive whole number as its value, without a fraction.
abbrev pub IsWhole : Point → Sample → Type 0
IsWhole p s = (p.time ≡ s.time) × (p.value ≡ finite (pos s.replicas) 0) × (1 ≤ s.replicas)

-- Every retained count is the value of a point.
abbrev pub AreWhole : List Point → List Sample → Type 0
AreWhole points ss = All (λ s. Any (λ p. IsWhole p s) points) ss

is_invalid-value :
    (v : Float)
    → is_invalid (record { time = 0; value = v }) ≡ false
    → v ≡ finite (pos (count_of v)) 0
is_invalid-value nan h = cc
is_invalid-value inf h = cc
is_invalid-value neg_inf h = cc
is_invalid-value (finite (pos n) k) h =
    let whole_value : k ≡ 0 = ground arith in ap (finite (pos n)) whole_value
is_invalid-value (finite (negsuc zero) zero) h = absurd (ground arith)
is_invalid-value (finite (negsuc (suc n)) zero) h = absurd (ground arith)
is_invalid-value (finite (negsuc zero) (suc k)) h = absurd (ground arith)
is_invalid-value (finite (negsuc (suc n)) (suc k)) h = absurd (ground arith)

whole-IsWhole : (p : Point) → is_invalid p ≡ false → IsWhole p (whole p)
whole-IsWhole p h = (refl, is_invalid-value p.value h, is_invalid-count p h)

-- Valid points, as counts.
wholes-All :
    (Q : Sample → Type 0) (ps : List Point)
    → any_of is_invalid ps ≡ false
    → All (λ p. (s : Sample) → IsWhole p s → Q s) ps
    → All Q (wholes ps)
unfolding wholes
wholes-All Q [] h a = tt
wholes-All Q (p ∷ ps) h a =
    let (first, rest) = or_false (is_invalid p) (any_of is_invalid ps) h in
    (a.0 (whole p) (whole-IsWhole p first), wholes-All Q ps rest a.1)

wholes-Any : (ps : List Point) → All (λ p. Any (λ s. s.time ≡ p.time) (wholes ps)) ps
unfolding wholes
wholes-Any [] = tt
wholes-Any (p ∷ ps) = (inl refl, All-map ps (λ q h. inr h) (wholes-Any ps))

-- What the checks leave as it is.
record IsPassed (b : Point) (ps : List Point) (base : Sample) (inside : List Sample) : Type 0 where
  first : whole b ≡ base
  others : wholes ps ≡ inside
  valid : is_invalid b ≡ false
  all_valid : any_of is_invalid ps ≡ false

checked-IsPassed :
    (w : Window) (b : Point) (ps : List Point) (base : Sample) (inside : List Sample)
    → checked w b ps ≡ ok (base, inside)
    → IsPassed b ps base inside
unfolding checked
checked-IsPassed w b ps base inside h = do
  (_, h1) ← not_raised (ltb 15 (w.onset - b.time)) no_baseline _ h
  (_, h2) ←
      not_raised
        (ltb 15 (w.tail_end - (last_or b ps).time)
          || any_adjacent (λ p q. ltb 15 (q.time - p.time)) b ps)
        observation_gap _ h1
  (valid, h3) ← not_raised (is_invalid b || any_of is_invalid ps) invalid_sample _ h2
  (_, h4) ← not_raised (any_adjacent (λ p q. leb q.time p.time) b ps) duplicate_time _ h3
  let (one, all) = or_false (is_invalid b) (any_of is_invalid ps) valid
  let e = ok-injective {E = Invalid} (whole b, wholes ps) (base, inside) h4
  record { first = ap (λ r. r.0) e; others = ap (λ r. r.1) e; valid = one; all_valid = all }

-- The timeline against the samples that were read.
pub record IsRetained (w : Window) (points : List Point) (base : Sample) (inside : List Sample)
    : Type 0 where
  pub checked : IsChecked w base inside
  pub base_whole : Any (λ p. IsWhole p base) points
  pub latest : All (λ p. p.time ≤ w.onset → p.time ≤ base.time) points
  pub inside_whole : AreWhole points inside
  pub complete :
      All (λ p. w.onset < p.time → p.time ≤ w.tail_end → Any (λ s. s.time ≡ p.time) inside) points

le→leb : (a b : ℕ) → a ≤ b → leb a b ≡ true
le→leb a b h = ground arith

inside_test : (low high t : ℕ) → low < t → t ≤ high → (ltb low t && leb t high) ≡ true
inside_test low high t a b = ground arith

module _ (w : Window) (points : List Point) where
  abbrev IsSourced : Point → Type 0
  IsSourced p = (s : Sample) → IsWhole p s → Any (λ q. IsWhole q s) points

  sourced : All IsSourced (sorted points)
  sourced = sorted-All IsSourced points (All-Any IsWhole points)

  from_baseline-IsRetained :
      (o : Option Point) (base : Sample) (inside : List Sample)
      → baseline w (sorted points) ≡ o
      → from_baseline w o (inside_window w (sorted points)) ≡ ok (base, inside)
      → IsChecked w base inside
      → IsRetained w points base inside
  unfolding from_baseline baseline inside_window
  from_baseline-IsRetained none base inside e h c = cc
  from_baseline-IsRetained (some b) base inside e h c =
      let early = keep_if (λ p. leb p.time w.onset) (sorted points) in
      let kept = keep_if (λ p. ltb w.onset p.time && leb p.time w.tail_end) (sorted points) in
      let passed = checked-IsPassed w b kept base inside h in
      let top =
        Rising-get_last? early b
          (keep_if-Rising (λ p. leb p.time w.onset) (sorted points) (sorted-Rising points)) e in
      let source =
        All-get_last? IsSourced early
          (All-keep IsSourced (λ p. leb p.time w.onset) (sorted points) sourced) e in
      let at_base = ap (λ (s : Sample). s.time) passed.first in
      record {
        checked = c;
        base_whole =
            subst (λ s. Any (λ p. IsWhole p s) points) passed.first
              (source (whole b) (whole-IsWhole b passed.valid));
        latest =
            All-map points
              (λ p f at_most. omega (arith, at_base, f (le→leb p.time w.onset at_most)))
              (sorted-All_parts _ points
                (All-of_kept (λ p. p.time ≤ b.time) (λ p. leb p.time w.onset) (sorted points) top));
        inside_whole = subst (AreWhole points) passed.others (
            wholes-All (λ s. Any (λ p. IsWhole p s) points) kept passed.all_valid
              (All-keep IsSourced _ (sorted points) sourced));
        complete =
            All-map points
              (λ p f after within. f (inside_test w.onset w.tail_end p.time after within))
              (sorted-All_parts _ points (
                All-of_kept (λ p. Any (λ s. s.time ≡ p.time) inside) _ (sorted points)
                  (subst (λ l. All (λ p. Any (λ s. s.time ≡ p.time) l) kept) passed.others
                    (wholes-Any kept))));
      }

  -- The samples that pass: strictly ascending and inside the window but for the first, which has the
  -- latest time up to onset and is at most 15 s old; no gap over 15 s; every count the value of a
  -- sample that is a positive whole number; and no time of the window left out.
  pub timeline-IsRetained :
      (base : Sample) (inside : List Sample)
      → timeline w points ≡ ok (base, inside)
      → IsRetained w points base inside
  unfolding timeline
  timeline-IsRetained base inside h =
      from_baseline-IsRetained (baseline w (sorted points)) base inside refl h
        (timeline-IsChecked w points h)
