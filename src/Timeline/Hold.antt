-- ===== src/Timeline/Hold.antt =====
-- The loop that weighs each sample by the seconds for which it holds inside a window, and the
-- integral that it computes.
use native.Mathlib.Nat.{add-zero}
use predictive_hpa.Prelude.{
  ℕ, ◌+◌, ◌-◌, ◌*◌, ◌≤◌, ◌<◌, ◌≡◌, ap, sym, List, [], ◌∷◌, arith, min, max, leb, Bool-cases, leb→le,
  leb→lt, inl, inr,
}
use predictive_hpa.Timeline.{Sample, held, Ascending, EndsBy, held-nil, held-early, held-late}
use predictive_hpa.Timeline.Integral.{integral, integral-ext, integral-const, integral-split}

-- The time of the next sample, or the end.
abbrev pub next_time : ℕ → List Sample → ℕ
next_time b [] = b
next_time b (s ∷ ss) = s.time

-- Each sample's weight `f` times the seconds that it holds between `a` and `b`.
unfoldable pub hold_sum : (ℕ → ℕ) → ℕ → ℕ → List Sample → ℕ
hold_sum f a b [] = 0
hold_sum f a b (s ∷ ss) = f s.replicas * (min (next_time b ss) b - max s.time a) + hold_sum f a b ss

module _ (f : ℕ → ℕ) (s r : Sample) (ss : List Sample) where
  -- The seconds from `lo` up to the next sample `r`, and `n` seconds from there.
  integral-held :
      (lo n : ℕ)
      → Ascending s.time (r ∷ ss)
      → lo ≤ r.time
      → integral (λ t. f (held s.replicas (r ∷ ss) t)) lo (r.time - lo + n)
        ≡ f s.replicas * (r.time - lo) + integral (λ t. f (held r.replicas ss t)) r.time n
  integral-held lo n asc h =
      let old = λ (t : ℕ). f (held s.replicas (r ∷ ss) t) in
      let new = λ (t : ℕ). f (held r.replicas ss t) in
      let e : lo + (r.time - lo) ≡ r.time = omega arith in
      let first : integral old lo (r.time - lo) ≡ f s.replicas * (r.time - lo) =
        integral-const old (f s.replicas) lo (r.time - lo)
          (λ t p q. ap f (held-early s.replicas t r ss asc.1 (omega arith))) in
      let second : integral old r.time n ≡ integral new r.time n =
        integral-ext old new r.time n (λ t p q. ap f (held-late s.replicas t r ss p)) in
      let parts : integral old lo (r.time - lo + n)
          ≡ integral old lo (r.time - lo) + integral old r.time n =
        rw e at (integral-split old lo (r.time - lo) n) in
      omega arith

module _ (f : ℕ → ℕ) (a b : ℕ) (s r : Sample) (ss : List Sample)
    (asc : Ascending s.time (r ∷ ss)) where
  abbrev Weighed : Type 0
  Weighed =
      hold_sum f a b (r ∷ ss)
      ≡ integral (λ t. f (held r.replicas ss t)) (max r.time a) (b - max r.time a)

  abbrev Extended : Type 0
  Extended =
      f s.replicas * (min r.time b - max s.time a) + hold_sum f a b (r ∷ ss)
      ≡ integral (λ t. f (held s.replicas (r ∷ ss) t)) (max s.time a) (b - max s.time a)

  -- The window opens before the next sample.
  reached : EndsBy b (r ∷ ss) → a ≤ r.time → Weighed → Extended
  reached ends h ih =
      let lo = max s.time a in
      let e : max r.time a ≡ r.time = omega arith in
      let m : min r.time b ≡ r.time = omega arith in
      let n : b - lo ≡ r.time - lo + (b - r.time) = omega arith in
      let long = integral-held f s r ss lo (b - r.time) asc (omega arith) in
      let short = rw e at ih in
      rw (m, n) (rw long (ap (λ (x : ℕ). f s.replicas * (r.time - lo) + x) short))

  -- The window opens after the next sample.
  passed : r.time < a → Weighed → Extended
  passed h ih =
      let e : max r.time a ≡ a = omega arith in
      let e' : max s.time a ≡ a = omega arith in
      let z : min r.time b - a ≡ 0 = omega arith in
      let same =
        integral-ext (λ t. f (held s.replicas (r ∷ ss) t)) (λ t. f (held r.replicas ss t)) a (b - a)
          (λ t p q. ap f (held-late s.replicas t r ss (omega arith))) in
      let short = rw e at ih in rw e' (rw (same, z) (omega (arith, short)))

module _ (f : ℕ → ℕ) (a b : ℕ) where
  -- The weighted sum is the integral of the weight of the count that holds, second by second, over
  -- the part of the window that the samples cover.
  pub hold_sum-integral :
      (s : Sample) (ss : List Sample)
      → Ascending s.time ss
      → EndsBy b ss
      → hold_sum f a b (s ∷ ss)
        ≡ integral (λ t. f (held s.replicas ss t)) (max s.time a) (b - max s.time a)
  unfolding hold_sum
  hold_sum-integral s [] asc ends =
      let m : min b b ≡ b = omega arith in
      rw (m, add-zero)
        (sym (integral-const _ (f s.replicas) _ _ (λ t p q. ap f (held-nil s.replicas t))))
  hold_sum-integral s (r ∷ ss) asc ends = elim (Bool-cases (leb a r.time)) [
    | inl before ↦
        reached f a b s r ss asc ends (leb→le _ _ before) (hold_sum-integral r ss asc.1 ends.1)
    | inr after ↦ passed f a b s r ss asc (leb→lt _ _ after) (hold_sum-integral r ss asc.1 ends.1)
  ]
