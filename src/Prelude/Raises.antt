-- ===== src/Prelude/Raises.antt =====
-- Which exceptions an action may raise.
use predictive_hpa.Prelude.Actions.{
  Outcome, returned, raised, Action, pure, raise, ensure, continue, ◌>>=◌, outside, with_rest,
  on_rest,
}
use mathlib.Core.Bool.{Bool, true, false}

module _ {ℓ κ κ'} {E : Type κ} {S : Type ℓ} (P : E → Type κ') where
  -- An outcome, and an action from any state, that returns or raises an exception of `P`.
  abbrev pub Raised {ℓ'} : {A : Type ℓ'} → Outcome E S A → Type κ'
  Raised (returned a s) = Unit
  Raised (raised e s) = P e

  unfoldable pub OnlyRaises {ℓ'} : {A : Type ℓ'} → Action E S A → Type (ℓ ⊔ κ')
  OnlyRaises m = (s : S) → Raised (m s)

  Raised-continue {ℓ' ℓ''} :
      {A : Type ℓ'} {B : Type ℓ''} (f : A → Action E S B) (o : Outcome E S A)
      → Raised o
      → ((a : A) → OnlyRaises (f a))
      → Raised (continue f o)
  unfolding OnlyRaises
  Raised-continue f (returned a s) h k = k a s
  Raised-continue f (raised e s) h k = h

  pub OnlyRaises-bind {ℓ' ℓ''} :
      {A : Type ℓ'} {B : Type ℓ''} (m : Action E S A) (f : A → Action E S B)
      → OnlyRaises m
      → ((a : A) → OnlyRaises (f a))
      → OnlyRaises (m >>= f)
  unfolding OnlyRaises ◌>>=◌
  OnlyRaises-bind m f h k s = Raised-continue f (m s) (h s) k

module _ {ℓ κ κ'} {E : Type κ} (S : Type ℓ) (P : E → Type κ') where
  pub OnlyRaises-pure {ℓ'} : {A : Type ℓ'} (a : A) → OnlyRaises {S = S} P (pure a)
  unfolding OnlyRaises
  OnlyRaises-pure a s = tt

  pub OnlyRaises-raise {ℓ'} : (A : Type ℓ') (e : E) → P e → OnlyRaises {S = S} P (raise {A = A} e)
  unfolding OnlyRaises
  OnlyRaises-raise A e p s = p

  pub OnlyRaises-ensure : (b : Bool) (e : E) → P e → OnlyRaises {S = S} P (ensure b e)
  unfolding OnlyRaises ensure
  OnlyRaises-ensure true e p s = tt
  OnlyRaises-ensure false e p s = p

module _ {ℓ ℓ' κ κ'} {E : Type κ} (S : Type ℓ) (T : Type ℓ') (P : E → Type κ') where
  Raised-with_rest {ℓ''} :
      {A : Type ℓ''} (t : T) (o : Outcome E S A) → Raised P o → Raised P (with_rest t o)
  Raised-with_rest t (returned a s) h = tt
  Raised-with_rest t (raised e s) h = h

  pub OnlyRaises-outside {ℓ''} :
      {A : Type ℓ''} (m : Action E S A) → OnlyRaises P m → OnlyRaises {S = S × T} P (outside m)
  unfolding OnlyRaises outside
  OnlyRaises-outside m h (s, t) = Raised-with_rest t (m s) (h s)

  pub OnlyRaises-on_rest : (f : T → T) → OnlyRaises {S = S × T} P (on_rest f)
  unfolding OnlyRaises on_rest
  OnlyRaises-on_rest f (s, t) = tt
