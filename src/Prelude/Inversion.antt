-- ===== src/Prelude/Inversion.antt =====
-- Inversion of code that returned, written as a `do` block: each line names what one step of the code
-- returned, that it did, and that the rest returned.
use mathlib.Core.Path.{◌≡◌}
use mathlib.Core.Bool.{Bool, false}
use predictive_hpa.Prelude.Results.{Result, ok, raise_if, on_ok, on_pass}
use predictive_hpa.Prelude.Results

-- A step of such a proof is a proof of the goal from what the step gives.
infixl 5 ◌>>=◌
abbrev pub ◌>>=◌ {ℓ κ} : {A : Type ℓ} {P : Type κ} → ((A → P) → P) → (A → P) → P
m >>= k = m k

module _ {ℓ ℓ' κ} {E : Type κ} {A : Type ℓ} {B : Type ℓ'} where
  pub returned {ℓ''} :
      {P : Type ℓ''} (m : Result E A) (f : A → Result E B) {b : B}
      → Results.◌>>=◌ m f ≡ ok b
      → (((a : A) × (m ≡ ok a) × (f a ≡ ok b)) → P)
      → P
  returned m f h k = on_ok m f h λ a e rest. k (a, e, rest)

pub not_raised {ℓ κ ℓ'} :
    {E : Type κ} {B : Type ℓ} {P : Type ℓ'} (t : Bool) (e : E) (f : Unit {0} → Result E B) {b : B}
    → Results.◌>>=◌ (raise_if t e) f ≡ ok b
    → (((t ≡ false) × (f tt ≡ ok b)) → P)
    → P
not_raised t e f h k = on_pass t e f h λ no rest. k (no, rest)
