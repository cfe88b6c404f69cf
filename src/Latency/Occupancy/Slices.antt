-- ===== src/Latency/Occupancy/Slices.antt =====
-- hack/analyze/latency.py, scenario_occupancy: the values that bisect_right and a slice select.
use predictive_hpa.Prelude.{
  ℕ, zero, suc, ◌≤◌, ◌<◌, Bool, true, false, not, ◌≡◌, refl, ap, inl, inr, some, List, [], ◌∷◌,
  length, get_elem?, get_last?, get_last?-cons, ◌==◌, Bool-cases, or_false, arith,
}
use predictive_hpa.Prelude.Int.{pos}
use predictive_hpa.Float.{Float, finite, of_ℤ}
use predictive_hpa.Latency.Values.{le}
use predictive_hpa.Latency.Occupancy.{Value, not_count, any_pair, bisect_right, slice}

-- Each value and the next.
abbrev pub Neighbours : (Value → Value → Type 0) → List Value → Type 0
Neighbours P [] = Unit
Neighbours P (v ∷ []) = Unit
Neighbours P (v ∷ w ∷ vs) = P v w × Neighbours P (w ∷ vs)

pub any_pair-Neighbours :
    (test : Value → Value → Bool) (vs : List Value)
    → any_pair test vs ≡ false
    → Neighbours (λ v w. test v w ≡ false) vs
unfolding any_pair
any_pair-Neighbours test [] h = tt
any_pair-Neighbours test (v ∷ []) h = tt
any_pair-Neighbours test (v ∷ w ∷ vs) h =
    let (here, rest) = or_false (test v w) (any_pair test (w ∷ vs)) h in
    (here, any_pair-Neighbours test (w ∷ vs) rest)

-- A count is a whole number.
abbrev pub IsCount : Float → Type 0
IsCount x = (n : ℕ) × (x ≡ of_ℤ (pos n))

is_zero : (k : ℕ) → not (k == 0) ≡ false → k ≡ 0
is_zero k h = ground arith

pub not_count-IsCount : (x : Float) → not_count x ≡ false → IsCount x
not_count-IsCount (finite (pos n) k) h = (n, ap (finite (pos n)) (is_zero k h))
not_count-IsCount x h = cc

-- The values around the place that bisect_right finds.
pub last_before :
    (x : Float) (vs : List Value) (n : ℕ)
    → bisect_right x vs ≡ suc n
    → (v : Value) × (get_elem? vs n ≡ some v) × (le v.0 x ≡ true)
last_before x [] n h = absurd (omega (arith, h))
last_before x (v ∷ vs) zero h = elim (Bool-cases (le v.0 x)) [
  | inl e ↦ (v, refl, e)
  | inr e ↦ absurd (omega (arith, rw e at h))
]
last_before x (v ∷ vs) (suc n) h = elim (Bool-cases (le v.0 x)) [
  | inl e ↦ last_before x vs n (omega (arith, rw e at h))
  | inr e ↦ absurd (omega (arith, rw e at h))
]

pub first_after :
    (x : Float) (vs : List Value)
    → bisect_right x vs < length vs
    → (v : Value) × (get_elem? vs (bisect_right x vs) ≡ some v) × (le v.0 x ≡ false)
first_after x [] h = absurd (omega (arith, h))
first_after x (v ∷ vs) h = elim (Bool-cases (le v.0 x)) [
  | inl e ↦ rw e (first_after x vs (omega (arith, rw e at h)))
  | inr e ↦ rw e (v, refl, e)
]

pub slice-head :
    (i j : ℕ) (vs : List Value) (v : Value) (ws : List Value)
    → slice i j vs ≡ v ∷ ws
    → get_elem? vs i ≡ some v
slice-head i zero vs v ws h = cc
slice-head i (suc j) [] v ws h = cc
slice-head zero (suc j) (u ∷ vs) v ws h = ap (λ (l : List Value). get_elem? l 0) h
slice-head (suc i) (suc j) (u ∷ vs) v ws h = slice-head i j vs v ws h

pub slice-le :
    (i j : ℕ) (vs : List Value) (v : Value) (ws : List Value) → slice i (suc j) vs ≡ v ∷ ws → i ≤ j
slice-le i j [] v ws h = cc
slice-le zero j (u ∷ vs) v ws h = omega arith
slice-le (suc i) zero (u ∷ vs) v ws h = cc
slice-le (suc i) (suc j) (u ∷ vs) v ws h = omega (arith, slice-le i j vs v ws h)

pub slice-last :
    (i j : ℕ) (vs : List Value) (u : Value)
    → i ≤ j
    → get_elem? vs j ≡ some u
    → get_last? (slice i (suc j) vs) ≡ some u
slice-last i j [] u h e = cc
slice-last zero zero (v ∷ vs) u h e = e
slice-last zero (suc j) (v ∷ vs) u h e =
    get_last?-cons v u (slice zero (suc j) vs) (slice-last zero j vs u (omega arith) e)
slice-last (suc i) zero (v ∷ vs) u h e = absurd (omega (arith, h))
slice-last (suc i) (suc j) (v ∷ vs) u h e = slice-last i j vs u (omega (arith, h)) e
