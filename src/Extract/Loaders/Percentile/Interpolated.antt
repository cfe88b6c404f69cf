-- ===== src/Extract/Loaders/Percentile/Interpolated.antt =====
-- hack/analyze/extract.py, percentile: that it returns, and what it returns.
use predictive_hpa.Prelude.{
  ℕ, zero, suc, ◌≤◌, ◌<◌, ◌≡◌, refl, sym, ◌⊎◌, inl, inr, some, List, [], ◌∷◌, length, get_elem?, ok,
  bind_ok, All, Bool-cases, ltb, true, false, arith,
}
use predictive_hpa.Prelude.Int.{pos, ◌+ℤ◌, eq_ℤ}
use predictive_hpa.Prelude.Sorting.{sort_returns, sort-perm, sort-IsSorted, sort-length, IsSorted}
use predictive_hpa.Float.{Float, finite, of_ℤ, lt, Operations}
use predictive_hpa.Extract.Loaders.Percentile.{
  less_float, min_ℤ, position, interpolate, value_at, of_sorted, percentile,
}
use mathlib.Core.List.{Perm}
use mathlib.Core.Path.{subst}

-- An index within a list finds its item.
get_elem?-some :
    {A : Type 0} (xs : List A) (i : ℕ) → i < length xs → (x : A) × (get_elem? xs i ≡ some x)
get_elem?-some [] i h = absurd (omega arith)
get_elem?-some (x ∷ xs) zero h = (x, refl)
get_elem?-some (x ∷ xs) (suc i) h = get_elem?-some xs i (omega arith)

everywhere : (xs : List Float) → All (λ _. Unit {0}) xs
everywhere [] = tt
everywhere (x ∷ xs) = (tt, everywhere xs)

module _ (o : Operations) where
  -- The product of a count and of a part of a hundred is rounded to a float from 0 to the count.
  abbrev pub IsPositioned : Type 0
  IsPositioned =
      (last p : ℕ) → p ≤ 100 → (i r : ℕ) × (position o last p ≡ finite (pos i) r) × (i ≤ last)

  -- The item at the position, which is the last one, or the value between it and the next.
  abbrev pub IsBetween : List Float → Float → Float → Type 0
  IsBetween s k x =
      (i r : ℕ) × (k ≡ finite (pos i) r)
      × ((suc i ≡ length s) × (get_elem? s i ≡ some x)
          ⊎ ((low high : Float) × (get_elem? s i ≡ some low)
              × (get_elem? s (suc i) ≡ some high)
              × (x ≡ o.plus low (o.times (o.minus high low) (o.minus k (of_ℤ (pos i)))))))

  -- The value at the part `p` of a hundred of the values in order.
  abbrev pub IsPercentile : List Float → ℕ → Float → Type 0
  IsPercentile values p x =
      (s : List Float) × (last : ℕ) × Perm s values
      × IsSorted less_float s
      × (length s ≡ suc last)
      × IsBetween s (position o last p) x

  next_of : (i : ℕ) → (pos i +ℤ pos 1) ≡ pos (suc i)
  unfolding ◌+ℤ◌
  next_of i = ground arith

  -- The second index after `i`, at the last item and before it.
  next_at_last : (i : ℕ) → min_ℤ (pos i +ℤ pos 1) (pos i) ≡ pos i
  next_at_last i = rw next_of (ground arith)

  next_before_last : (i last : ℕ) → suc i ≤ last → min_ℤ (pos i +ℤ pos 1) (pos last) ≡ pos (suc i)
  next_before_last i last h = rw next_of (ground arith)

  not_next : (i : ℕ) → eq_ℤ (pos i) (pos (suc i)) ≡ false
  not_next i = ground arith

  itself : (i : ℕ) → eq_ℤ (pos i) (pos i) ≡ true
  itself i = ground arith

  value_at-last :
      (s : List Float) (i r : ℕ) (x : Float)
      → get_elem? s i ≡ some x
      → value_at o s i (finite (pos i) r) ≡ ok x
  unfolding value_at
  value_at-last s i r x here = rw (next_at_last i, itself i, here) refl

  value_at-between :
      (s : List Float) (last i r : ℕ) (low high : Float)
      → suc i ≤ last
      → get_elem? s i ≡ some low
      → get_elem? s (suc i) ≡ some high
      → value_at o s last (finite (pos i) r)
        ≡ ok (o.plus low (o.times (o.minus high low) (o.minus (finite (pos i) r) (of_ℤ (pos i)))))
  unfolding value_at interpolate
  value_at-between s last i r low high h here next =
      rw (next_before_last i last h, not_next i, here, next) refl

  value_at-IsBetween :
      (s : List Float) (last i r : ℕ)
      → length s ≡ suc last
      → i ≤ last
      → (x : Float) × (value_at o s last (finite (pos i) r) ≡ ok x)
        × IsBetween s (finite (pos i) r) x
  value_at-IsBetween s last i r n h =
      let (low, here) = get_elem?-some s i (omega arith) in
      elim (Bool-cases (ltb i last)) [
        | inl e ↦
            let before : suc i ≤ last = ground arith in
            let (high, next) = get_elem?-some s (suc i) (omega arith) in
            (
              _,
              value_at-between s last i r low high before here next,
              (i, r, refl, inr (low, high, here, next, refl)),
            )
        | inr e ↦
            let same : last ≡ i = ground arith in
            (
              low,
              subst (λ n. value_at o s n (finite (pos i) r) ≡ ok low) (sym same)
                  (value_at-last s i r low here),
              (i, r, refl, inl (omega arith, here)),
            )
      ]

  -- What a list in order has at the position.
  of_sorted-IsBetween :
      (s : List Float) (last p : ℕ)
      → IsPositioned
      → p ≤ 100
      → length s ≡ suc last
      → (x : Float) × (of_sorted o p s ≡ ok (some x)) × IsBetween s (position o last p) x
  unfolding of_sorted
  of_sorted-IsBetween [] last p hyp part n = absurd (omega arith)
  of_sorted-IsBetween (x ∷ []) last p hyp part n =
      let (i, r, at, within) = hyp last p part in
      let first : i ≡ 0 = omega arith in (x, refl, (i, r, at, inl (rw first refl, rw first refl)))
  of_sorted-IsBetween (x ∷ y ∷ ys) last p hyp part n =
      let same : length (y ∷ ys) ≡ last = omega arith in
      let (i, r, at, within) = hyp last p part in
      let (value, found, between) = value_at-IsBetween (x ∷ y ∷ ys) last i r n within in
      (
        value,
        rw (same, at, found) refl,
        subst (λ k. IsBetween (x ∷ y ∷ ys) k value) (sym at) between,
      )

  -- For a list that is not empty and a part of at most a hundred, where the product of a count and
  -- such a part is rounded to a float from 0 to the count, the percentile is returned, without an
  -- IndexError: with the values in order, it is the one at the integer part of the position if
  -- that is the last one, else the value that is interpolated from there to the next.
  pub percentile-IsPercentile :
      (values : List Float) (p : ℕ)
      → IsPositioned
      → p ≤ 100
      → 1 ≤ length values
      → (x : Float) × (percentile o values p ≡ ok (some x)) × IsPercentile values p x
  unfolding percentile
  percentile-IsPercentile [] p hyp part n = absurd (omega arith)
  percentile-IsPercentile (v ∷ vs) p hyp part n =
      let (s, sorted) =
        sort_returns less_float (λ _. Unit {0}) (λ a b _ _. (lt a b, refl)) (v ∷ vs)
          (everywhere (v ∷ vs)) in
      let size : length s ≡ suc (length vs) = sort-length less_float (v ∷ vs) s sorted in
      let (x, found, between) = of_sorted-IsBetween s (length vs) p hyp part size in
      (
        x,
        bind_ok (of_sorted o p) sorted found,
        (
          s,
          length vs,
          sort-perm less_float (v ∷ vs) s sorted,
          sort-IsSorted less_float (v ∷ vs) s sorted,
          size,
          between,
        ),
      )
