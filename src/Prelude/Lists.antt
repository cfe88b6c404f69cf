-- ===== src/Prelude/Lists.antt =====
-- Lists measured by native numbers, and the loops that Python writes as comprehensions.
use Prim.Native.Nat.{ℕ, zero, suc, ◌+◌, ◌≤◌}
use mathlib.Core.Path.{◌≡◌, refl, subst}
use mathlib.Core.Bool.{Bool, true, false, ◌||◌, ◌&&◌}
use mathlib.Core.List.{List, [], ◌∷◌, ◌++◌, map}
use mathlib.Core.Option.{Option, none, some, some-injective}
use native.Mathlib.Omega.{arith}
use mathlib.Core.Logic.{◌⊎◌, inl, inr}
use predictive_hpa.Prelude.Tests.{if◌then◌else◌, Bool-cases}

module _ {ℓ} {A : Type ℓ} where
  abbrev pub length : List A → ℕ
  length [] = 0
  length (x ∷ xs) = suc (length xs)

  abbrev pub get_elem? : List A → ℕ → Option A
  get_elem? [] i = none
  get_elem? (x ∷ xs) zero = some x
  get_elem? (x ∷ xs) (suc i) = get_elem? xs i

  -- `xs[-1]`, with a value for the empty list.
  abbrev pub last_or : A → List A → A
  last_or d [] = d
  last_or d (x ∷ xs) = last_or x xs

  abbrev pub get_last? : List A → Option A
  get_last? [] = none
  get_last? (x ∷ xs) = some (last_or x xs)

  -- `[x for x in xs if p(x)]`
  abbrev pub keep_if : (A → Bool) → List A → List A
  keep_if p [] = []
  keep_if p (x ∷ xs) = let rest = keep_if p xs in if p x then x ∷ rest else rest

  -- `any(p(x) for x in xs)`
  abbrev pub any_of : (A → Bool) → List A → Bool
  any_of p [] = false
  any_of p (x ∷ xs) = p x || any_of p xs

  -- `sum(1 for x in xs if p(x))`
  abbrev pub count_if : (A → Bool) → List A → ℕ
  count_if p [] = 0
  count_if p (x ∷ xs) = (if p x then 1 else 0) + count_if p xs

  abbrev pub All {κ} : (A → Type κ) → List A → Type κ
  All P [] = Unit
  All P (x ∷ xs) = P x × All P xs

  -- Some element, and where it stands.
  abbrev pub Any : (A → Type 0) → List A → Type 0
  Any P [] = ⊥
  Any P (x ∷ xs) = P x ⊎ Any P xs

  pub length-append : (xs ys : List A) → length (xs ++ ys) ≡ length xs + length ys
  length-append [] ys = omega arith
  length-append (x ∷ xs) ys = omega (arith, length-append xs ys)

  pub All-append {κ} : (P : A → Type κ) (xs ys : List A) → All P xs → All P ys → All P (xs ++ ys)
  All-append P [] ys _ q = q
  All-append P (x ∷ xs) ys (p, ps) q = (p, All-append P xs ys ps q)

  -- What passes the test of a comprehension satisfies it.
  pub All-keep_if {κ} :
      (P : A → Type κ) (p : A → Bool) (xs : List A)
      → ((x : A) → p x ≡ true → P x)
      → All P (keep_if p xs)
  All-keep_if P p [] h = tt
  All-keep_if P p (x ∷ xs) h = elim (Bool-cases (p x)) [
    | inl e ↦ rw e (h x e, All-keep_if P p xs h)
    | inr e ↦ rw e (All-keep_if P p xs h)
  ]

  pub All-map {κ κ'} :
      {P : A → Type κ} {Q : A → Type κ'} (xs : List A) → ((x : A) → P x → Q x) → All P xs → All Q xs
  All-map [] f a = tt
  All-map (x ∷ xs) f a = (f x a.0, All-map xs f a.1)

  pub All-keep {κ} : (P : A → Type κ) (p : A → Bool) (xs : List A) → All P xs → All P (keep_if p xs)
  All-keep P p [] a = tt
  All-keep P p (x ∷ xs) a = elim (Bool-cases (p x)) [
    | inl e ↦ rw e (a.0, All-keep P p xs a.1)
    | inr e ↦ rw e (All-keep P p xs a.1)
  ]

  pub All-pair {κ κ'} :
      (P : A → Type κ) (Q : A → Type κ') (xs : List A)
      → All P xs
      → All Q xs
      → All (λ (x : A). P x × Q x) xs
  All-pair P Q [] p q = tt
  All-pair P Q (x ∷ xs) p q = ((p.0, q.0), All-pair P Q xs p.1 q.1)

  -- No element passes a test that `any` fails.
  pub any_of-eq-false :
      (p : A → Bool) (xs : List A) → any_of p xs ≡ false → All (λ (x : A). p x ≡ false) xs
  any_of-eq-false p [] h = tt
  any_of-eq-false p (x ∷ xs) h = elim (Bool-cases (p x)) [
    | inl e ↦ cc
    | inr e ↦ (e, any_of-eq-false p xs (rw e at h))
  ]

  pub count_if-append :
      (p : A → Bool) (xs ys : List A) → count_if p (xs ++ ys) ≡ count_if p xs + count_if p ys
  count_if-append p [] ys = omega arith
  count_if-append p (x ∷ xs) ys = omega (arith, count_if-append p xs ys)

  pub count_if-eq-zero : (p : A → Bool) (xs : List A) → any_of p xs ≡ false → count_if p xs ≡ 0
  count_if-eq-zero p [] h = refl
  count_if-eq-zero p (x ∷ xs) h = elim (Bool-cases (p x)) [
    | inl e ↦ cc
    | inr e ↦ rw e (omega (arith, count_if-eq-zero p xs (rw e at h)))
  ]

  -- `sum(f(x) for x in xs)`
  abbrev pub sum_by : (A → ℕ) → List A → ℕ
  sum_by f [] = 0
  sum_by f (x ∷ xs) = f x + sum_by f xs

  -- Two comprehensions in a row are one.
  pub keep_if-keep_if :
      (p q : A → Bool) (xs : List A) → keep_if p (keep_if q xs) ≡ keep_if (λ x. q x && p x) xs
  keep_if-keep_if p q [] = refl
  keep_if-keep_if p q (x ∷ xs) = elim (Bool-cases (q x)) [
    | inl e ↦ rw (e, keep_if-keep_if p q xs)
    | inr e ↦ rw (e, keep_if-keep_if p q xs)
  ]

  pub get_last?-cons : (x y : A) (xs : List A) → get_last? xs ≡ some y → get_last? (x ∷ xs) ≡ some y
  get_last?-cons x y [] h = cc
  get_last?-cons x y (z ∷ zs) h = h

  pub get_last?-keep_if_cons :
      (p : A → Bool) (x y : A) (xs : List A)
      → get_last? (keep_if p xs) ≡ some y
      → get_last? (keep_if p (x ∷ xs)) ≡ some y
  get_last?-keep_if_cons p x y xs h = elim (Bool-cases (p x)) [
    | inl e ↦ rw e (get_last?-cons x y (keep_if p xs) h)
    | inr e ↦ rw e h
  ]

  pub get_last?-eq-none : (xs : List A) → get_last? xs ≡ none → xs ≡ []
  get_last?-eq-none [] h = refl
  get_last?-eq-none (x ∷ xs) h = cc

  All-last_or {κ} : (P : A → Type κ) (x : A) (xs : List A) → P x → All P xs → P (last_or x xs)
  All-last_or P x [] h a = h
  All-last_or P x (y ∷ ys) h a = All-last_or P y ys a.0 a.1

  pub All-get_last? {κ} :
      (P : A → Type κ) (xs : List A) {x : A} → All P xs → get_last? xs ≡ some x → P x
  All-get_last? P [] a h = cc
  All-get_last? P (y ∷ ys) a h = subst P (some-injective _ _ h) (All-last_or P y ys a.0 a.1)

  pub count_if-le-length : (p : A → Bool) (xs : List A) → count_if p xs ≤ length xs
  count_if-le-length p [] = omega arith
  count_if-le-length p (x ∷ xs) = ground (arith, count_if-le-length p xs)

-- What holds of every image holds of the function's value at every element.
pub All-unmap {ℓ κ κ'} :
    {A : Type ℓ} {B : Type κ} (P : B → Type κ') (f : A → B) (xs : List A)
    → All P (map f xs)
    → All (λ (x : A). P (f x)) xs
All-unmap P f [] h = tt
All-unmap P f (x ∷ xs) h = (h.0, All-unmap P f xs h.1)

-- What holds of an element holds of some element.
pub All-Any {ℓ κ} :
    {A : Type ℓ} {B : Type κ} (P : A → B → Type 0) (xs : List A)
    → All (λ (x : A). (b : B) → P x b → Any (λ (y : A). P y b) xs) xs
All-Any P [] = tt
All-Any P (x ∷ xs) = (λ b p. inl p, All-map xs (λ y f b p. inr (f b p)) (All-Any P xs))

-- `sum(xs)`
abbrev pub sum : List ℕ → ℕ
sum [] = 0
sum (x ∷ xs) = x + sum xs

pub sum-append : (xs ys : List ℕ) → sum (xs ++ ys) ≡ sum xs + sum ys
sum-append [] ys = omega arith
sum-append (x ∷ xs) ys = omega (arith, sum-append xs ys)
