-- ===== src/Prelude/Results.antt =====
-- Results of code that may raise, over a type of exceptions.
use mathlib.Core.Path.{◌≡◌, refl, ap, sym, subst}
use mathlib.Core.Bool.{Bool, true, false}

pub data Result {ℓ κ} (E : Type κ) (A : Type ℓ) : Type (ℓ ⊔ κ) where
  ok : A → Result E A
  err : E → Result E A

module _ {ℓ ℓ' κ} {E : Type κ} {A : Type ℓ} {B : Type ℓ'} where
  infixl 5 ◌>>=◌ ◌>>◌
  abbrev pub ◌>>=◌ : Result E A → (A → Result E B) → Result E B
  ok a >>= f = f a
  err e >>= f = err e

  abbrev pub ◌>>◌ : Result E A → Result E B → Result E B
  m >> k = m >>= λ _. k

  -- A bind whose first step is known to succeed.
  pub bind_ok :
      {m : Result E A} (f : A → Result E B) {a : A} {r : Result E B}
      → m ≡ ok a
      → f a ≡ r
      → (m >>= f) ≡ r
  bind_ok {m} f {a} {r} e h = subst (λ (x : Result E A). (x >>= f) ≡ r) (sym e) h

  -- Inversion of a successful bind, for proofs where the parts stay shut.
  pub on_ok {ℓ''} :
      {P : Type ℓ''} (m : Result E A) (f : A → Result E B) {b : B}
      → (m >>= f) ≡ ok b
      → ((a : A) → m ≡ ok a → f a ≡ ok b → P)
      → P
  on_ok (ok a) f h k = k a refl h
  on_ok (err e) f h k = cc

-- `if test: raise e`
abbrev pub raise_if {κ} : {E : Type κ} → Bool → E → Result E (Unit {0})
raise_if true e = err e
raise_if false e = ok tt

pub on_pass {ℓ κ ℓ'} :
    {E : Type κ} {B : Type ℓ} {P : Type ℓ'} (t : Bool) (e : E) (f : Unit {0} → Result E B) {b : B}
    → (raise_if t e >>= f) ≡ ok b
    → (t ≡ false → f tt ≡ ok b → P)
    → P
on_pass true e f h k = cc
on_pass false e f h k = k refl h

module _ {ℓ κ} {E : Type κ} {A : Type ℓ} where
  abbrev from_ok : A → Result E A → A
  from_ok d (ok a) = a
  from_ok d (err e) = d

  pub ok-injective : (a b : A) → ◌≡◌ {A = Result E A} (ok a) (ok b) → a ≡ b
  ok-injective a b h = ap (from_ok a) h

pub passed {κ} : {E : Type κ} (t : Bool) (e : E) → raise_if t e ≡ ok tt → t ≡ false
passed true e h = cc
passed false e h = refl
