-- ===== src/Extract/Measurement/Checked.antt =====
-- What `timeline` guarantees of the samples that it lets through (hack/analyze/extract.py,
-- `compute_controlled_measurement`).
use mathlib.Core.Path.{subst}
use predictive_hpa.Prelude.{
  ℕ, zero, suc, ◌+◌, ◌-◌, ◌≤◌, ◌<◌, ◌≡◌, refl, false, ◌||◌, ◌&&◌, Option, none, some, List, [], ◌∷◌,
  arith, ltb, leb, any_of, last_or, All, ok, on_pass, ok-injective, or_false, All-keep_if, All-map,
  leb→le, All-get_last?,
}
use predictive_hpa.Prelude.Int.{pos, negsuc}
use predictive_hpa.Float.{Float, nan, inf, neg_inf, finite}
use predictive_hpa.Timeline.{Sample, Ascending, EndsBy}
use predictive_hpa.Extract.Window.{Window}
use predictive_hpa.Extract.Measurement.{
  Point, Invalid, timeline, checked, baseline, inside_window, from_baseline, is_invalid,
  any_adjacent, count_of, whole, wholes, sorted, no_baseline, observation_gap, invalid_sample,
  duplicate_time,
}

-- Neighbours are at most 15 s apart, up to the end.
abbrev pub Covers : ℕ → Sample → List Sample → Type 0
Covers end s [] = end ≤ s.time + 15
Covers end s (r ∷ ss) = (r.time ≤ s.time + 15) × Covers end r ss

pub record IsChecked (w : Window) (base : Sample) (inside : List Sample) : Type 0 where
  pub ascending : Ascending base.time inside
  pub ends_by : EndsBy w.tail_end inside
  pub from_onset : All (λ s. w.onset < s.time) inside
  pub base_before : base.time ≤ w.onset
  pub base_recent : w.onset ≤ base.time + 15
  pub covers : Covers w.tail_end base inside
  pub base_counts : 1 ≤ base.replicas
  pub counts : All (λ s. 1 ≤ s.replicas) inside

any_adjacent-Ascending :
    (p : Point) (ps : List Point)
    → any_adjacent (λ p q. leb q.time p.time) p ps ≡ false
    → Ascending p.time (wholes ps)
unfolding any_adjacent wholes
any_adjacent-Ascending p [] h = tt
any_adjacent-Ascending p (q ∷ qs) h = ground (arith, any_adjacent-Ascending q qs)

any_adjacent-Covers :
    (end : ℕ) (p : Point) (ps : List Point)
    → (ltb 15 (end - (last_or p ps).time) || any_adjacent (λ p q. ltb 15 (q.time - p.time)) p ps)
      ≡ false
    → Covers end (whole p) (wholes ps)
unfolding any_adjacent wholes
any_adjacent-Covers end p [] h = ground arith
any_adjacent-Covers end p (q ∷ qs) h = ground (arith, any_adjacent-Covers end q qs)

pub is_invalid-count : (p : Point) → is_invalid p ≡ false → 1 ≤ count_of p.value
is_invalid-count p h = go p.value h
  where
    go : (v : Float) → is_invalid (record { time = 0; value = v }) ≡ false → 1 ≤ count_of v
    go nan h = cc
    go inf h = cc
    go neg_inf h = cc
    go (finite (pos n) k) h = ground arith
    go (finite (negsuc zero) zero) h = ground arith
    go (finite (negsuc (suc n)) zero) h = ground arith
    go (finite (negsuc zero) (suc k)) h = ground arith
    go (finite (negsuc (suc n)) (suc k)) h = ground arith

any_of-counts :
    (ps : List Point) → any_of is_invalid ps ≡ false → All (λ s. 1 ≤ s.replicas) (wholes ps)
unfolding wholes
any_of-counts [] h = tt
any_of-counts (p ∷ ps) h =
    let (first, rest) = or_false (is_invalid p) (any_of is_invalid ps) h in
    (is_invalid-count p first, any_of-counts ps rest)

-- The window's samples, once read as counts.
All-wholes {κ} :
    (P : ℕ → Type κ) (ps : List Point) → All (λ p. P p.time) ps → All (λ s. P s.time) (wholes ps)
unfolding wholes
All-wholes P [] h = tt
All-wholes P (p ∷ ps) h = (h.0, All-wholes P ps h.1)

EndsBy-All : (b : ℕ) (ss : List Sample) → All (λ s. s.time ≤ b) ss → EndsBy b ss
EndsBy-All b [] h = tt
EndsBy-All b (s ∷ ss) h = (h.0, EndsBy-All b ss h.1)

checked-IsChecked :
    (w : Window) (b : Point) (ps : List Point) {base : Sample} {inside : List Sample}
    → b.time ≤ w.onset
    → All (λ p. (w.onset < p.time) × (p.time ≤ w.tail_end)) ps
    → checked w b ps ≡ ok (base, inside)
    → IsChecked w base inside
unfolding checked
checked-IsChecked w b ps {base} {inside} before within h =
    on_pass (ltb 15 (w.onset - b.time)) no_baseline _ h λ recent h1.
      on_pass
        (ltb 15 (w.tail_end - (last_or b ps).time)
          || any_adjacent (λ p q. ltb 15 (q.time - p.time)) b ps)
        observation_gap _ h1
        λ gaps h2. on_pass (is_invalid b || any_of is_invalid ps) invalid_sample _ h2 λ valid h3.
          on_pass (any_adjacent (λ p q. leb q.time p.time) b ps) duplicate_time _ h3 λ rising h4.
            let (first, rest) = or_false (is_invalid b) (any_of is_invalid ps) valid in
            let e = ok-injective {E = Invalid} (whole b, wholes ps) (base, inside) h4 in
            subst (λ (r : Sample × List Sample). IsChecked w r.0 r.1) e
              (record {
                ascending = any_adjacent-Ascending b ps rising;
                ends_by =
                    EndsBy-All w.tail_end (wholes ps)
                      (All-wholes (λ t. t ≤ w.tail_end) ps (All-map ps (λ p h. h.1) within));
                from_onset = All-wholes (λ t. w.onset < t) ps (All-map ps (λ p h. h.0) within);
                base_before = before;
                base_recent = ground arith;
                covers = any_adjacent-Covers w.tail_end b ps gaps;
                base_counts = is_invalid-count b first;
                counts = any_of-counts ps rest;
              })

module _ (w : Window) (points : List Point) where
  from_baseline-IsChecked :
      (o : Option Point) {base : Sample} {inside : List Sample}
      → baseline w (sorted points) ≡ o
      → from_baseline w o (inside_window w (sorted points)) ≡ ok (base, inside)
      → IsChecked w base inside
  unfolding from_baseline baseline inside_window
  from_baseline-IsChecked none e h = cc
  from_baseline-IsChecked (some b) e h =
      let before =
        All-get_last? (λ (p : Point). p.time ≤ w.onset) _
          (All-keep_if (λ (p : Point). p.time ≤ w.onset) (λ p. leb p.time w.onset) (sorted points)
            (λ p t. leb→le p.time w.onset t))
          e in
      let within =
        All-keep_if (λ (p : Point). (w.onset < p.time) × (p.time ≤ w.tail_end))
          (λ p. ltb w.onset p.time && leb p.time w.tail_end) (sorted points)
          (λ p t. (ground arith, ground arith)) in
      checked-IsChecked w b _ before within h

  -- The samples that pass: strictly ascending and inside the window but for the first, which is not
  -- after onset and at most 15 s old; no gap over 15 s; and every count at least one.
  pub timeline-IsChecked :
      {base : Sample} {inside : List Sample}
      → timeline w points ≡ ok (base, inside)
      → IsChecked w base inside
  unfolding timeline
  timeline-IsChecked h = from_baseline-IsChecked (baseline w (sorted points)) refl h
