-- ===== src/Timeline/Integral.antt =====
-- Sums of a function over a range of seconds.
use predictive_hpa.Prelude.{ℕ, zero, suc, ◌+◌, ◌*◌, ◌≤◌, ◌<◌, ◌≡◌, refl, arith}
use native.Mathlib.Nat.{zero-add, add-zero}

-- The sum of `g t` for `n` seconds from `a`.
pub integral : (ℕ → ℕ) → ℕ → ℕ → ℕ
integral g a zero = 0
integral g a (suc n) = g a + integral g (suc a) n

pub integral-ext :
    (f g : ℕ → ℕ) (a n : ℕ)
    → ((t : ℕ) → a ≤ t → t < a + n → f t ≡ g t)
    → integral f a n ≡ integral g a n
unfolding integral
integral-ext f g a zero h = refl
integral-ext f g a (suc n) h = omega (
  arith,
  h a (omega arith) (omega arith),
  integral-ext f g (suc a) n (λ t p q. h t (omega arith) (omega arith)),
)

pub integral-const :
    (g : ℕ → ℕ) (c a n : ℕ) → ((t : ℕ) → a ≤ t → t < a + n → g t ≡ c) → integral g a n ≡ c * n
unfolding integral
integral-const g c a zero h = omega arith
integral-const g c a (suc n) h = omega (
  arith,
  h a (omega arith) (omega arith),
  integral-const g c (suc a) n (λ t p q. h t (omega arith) (omega arith)),
)

pub integral-split :
    (g : ℕ → ℕ) (a m n : ℕ) → integral g a (m + n) ≡ integral g a m + integral g (a + m) n
unfolding integral
integral-split g a zero n = rw (zero-add n, add-zero a) (omega arith)
integral-split g a (suc m) n =
    let e : suc m + n ≡ suc (m + n) = omega arith in
    let e' : a + suc m ≡ suc a + m = omega arith in
    rw (e, e') (omega (arith, integral-split g (suc a) m n))

pub integral-le :
    (f g : ℕ → ℕ) (a n : ℕ)
    → ((t : ℕ) → a ≤ t → t < a + n → f t ≤ g t)
    → integral f a n ≤ integral g a n
unfolding integral
integral-le f g a zero h = omega arith
integral-le f g a (suc n) h = omega (
  arith,
  h a (omega arith) (omega arith),
  integral-le f g (suc a) n (λ t p q. h t (omega arith) (omega arith)),
)

pub integral-add :
    (f g : ℕ → ℕ) (a n : ℕ) → integral (λ t. f t + g t) a n ≡ integral f a n + integral g a n
unfolding integral
integral-add f g a zero = omega arith
integral-add f g a (suc n) = omega (arith, integral-add f g (suc a) n)
