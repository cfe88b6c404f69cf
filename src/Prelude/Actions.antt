-- ===== src/Prelude/Actions.antt =====
-- Code that changes a state and may raise: actions on a state, sequenced by do blocks, and rules for
-- what holds after them, whether they return or raise.
use mathlib.Core.Bool.{Bool, true, false}

pub data Outcome {ℓ ℓ' κ} (E : Type κ) (S : Type ℓ) (A : Type ℓ') : Type (ℓ ⊔ ℓ' ⊔ κ) where
  returned : A → S → Outcome E S A
  raised : E → S → Outcome E S A

abbrev pub Action {ℓ ℓ' κ} : Type κ → Type ℓ → Type ℓ' → Type (ℓ ⊔ ℓ' ⊔ κ)
Action E S A = S → Outcome E S A

module _ {ℓ κ} {E : Type κ} {S : Type ℓ} where
  -- A statement without a value.
  abbrev pub pure {ℓ'} : {A : Type ℓ'} → A → Action E S A
  pure a s = returned a s

  abbrev pub raise {ℓ'} : {A : Type ℓ'} → E → Action E S A
  raise e s = raised e s

  unfoldable pub update : (S → S) → Action E S (Unit {0})
  update f s = returned tt (f s)

  -- `if not test: raise e`
  unfoldable pub ensure : Bool → E → Action E S (Unit {0})
  ensure true e s = returned tt s
  ensure false e s = raised e s

  abbrev pub continue {ℓ' ℓ''} :
      {A : Type ℓ'} {B : Type ℓ''} → (A → Action E S B) → Outcome E S A → Outcome E S B
  continue f (returned a s) = f a s
  continue f (raised e s) = raised e s

  infixl 5 ◌>>=◌ ◌>>◌
  unfoldable pub ◌>>=◌ {ℓ' ℓ''} :
      {A : Type ℓ'} {B : Type ℓ''} → Action E S A → (A → Action E S B) → Action E S B
  (m >>= f) s = continue f (m s)

  abbrev pub ◌>>◌ {ℓ' ℓ''} :
      {A : Type ℓ'} {B : Type ℓ''} → Action E S A → Action E S B → Action E S B
  m >> k = m >>= λ _. k

  -- `J` when it returns, `R` when it raises.
  abbrev pub After {ℓ' κ'} :
      {A : Type ℓ'} → (A → S → Type κ') → (E → S → Type κ') → Outcome E S A → Type κ'
  After J R (returned a s) = J a s
  After J R (raised e s) = R e s

  unfoldable pub Ensures {ℓ' κ'} :
      {A : Type ℓ'}
      → (S → Type κ')
      → Action E S A
      → (A → S → Type κ')
      → (E → S → Type κ')
      → Type (ℓ ⊔ κ')
  Ensures I m J R = (s : S) → I s → After J R (m s)

  module _ {ℓ' ℓ'' κ'} {A : Type ℓ'} {B : Type ℓ''} (J : A → S → Type κ') (K : B → S → Type κ')
      (R : E → S → Type κ') where
    After-continue :
        (f : A → Action E S B) (o : Outcome E S A)
        → After J R o
        → ((a : A) → Ensures (J a) (f a) K R)
        → After K R (continue f o)
    unfolding Ensures
    After-continue f (returned a s) h k = k a s h
    After-continue f (raised e s) h k = h

    -- What holds after a sequence of two actions.
    pub Ensures-bind :
        (I : S → Type κ') (m : Action E S A) (f : A → Action E S B)
        → Ensures I m J R
        → ((a : A) → Ensures (J a) (f a) K R)
        → Ensures I (m >>= f) K R
    unfolding Ensures ◌>>=◌
    Ensures-bind I m f h k s i = After-continue f (m s) (h s i) k

  pub Ensures-pure {ℓ' κ'} :
      {A : Type ℓ'} (K : A → S → Type κ') (R : E → S → Type κ') (a : A) → Ensures (K a) (pure a) K R
  unfolding Ensures
  Ensures-pure K R a s i = i

  pub Ensures-raise {ℓ' κ'} :
      {A : Type ℓ'} (K : A → S → Type κ') (R : E → S → Type κ') (e : E)
      → Ensures (R e) (raise {A = A} e) K R
  unfolding Ensures
  Ensures-raise K R e s i = i

-- An action on a part of the state, of which nothing is known but that it leaves the rest alone.
module _ {ℓ ℓ' ℓ'' κ} {E : Type κ} {S : Type ℓ} {T : Type ℓ'} {A : Type ℓ''} where
  abbrev pub with_rest : T → Outcome E S A → Outcome E (S × T) A
  with_rest t (returned a s) = returned a (s, t)
  with_rest t (raised e s) = raised e (s, t)

  unfoldable pub outside : Action E S A → Action E (S × T) A
  outside m (s, t) = with_rest t (m s)

-- A change of the rest.
unfoldable pub on_rest {ℓ ℓ' κ} :
    {E : Type κ} {S : Type ℓ} {T : Type ℓ'} → (T → T) → Action E (S × T) (Unit {0})
on_rest f (s, t) = returned tt (s, f t)

-- What holds of the rest.
abbrev pub Rest {ℓ ℓ' ℓ'' κ'} :
    {S : Type ℓ} {T : Type ℓ'} → (T → Type κ') → {A : Type ℓ''} → A → S × T → Type κ'
Rest I _ st = I st.1

-- Rules for a statement in front of the rest of a body, where `I` holds of the part T of the state
-- before it, `K` after the body returns and `R` after it raises.
module _ {ℓ ℓ' κ κ'} {E : Type κ} {S : Type ℓ} {T : Type ℓ'} where
  module _ {ℓ''} {A : Type ℓ''} where
    After-with_rest :
        (I R : T → Type κ') (t : T) (o : Outcome E S A)
        → (I t → R t)
        → I t
        → After (Rest I) (Rest R) (with_rest t o)
    After-with_rest I R t (returned a s) f i = i
    After-with_rest I R t (raised e s) f i = f i

    pub Ensures-outside :
        (I R : T → Type κ') (m : Action E S A)
        → ((t : T) → I t → R t)
        → Ensures (λ st. I st.1) (outside m) (Rest I) (Rest R)
    unfolding Ensures outside
    Ensures-outside I R m f (s, t) i = After-with_rest I R t (m s) (f t) i

  module _ {ℓ''} {B : Type ℓ''} (K R R' : T → Type κ') where
    After-weaken :
        (o : Outcome E (S × T) B)
        → ((t : T) → R t → R' t)
        → After (Rest K) (Rest R) o
        → After (Rest K) (Rest R') o
    After-weaken (returned b s) f h = h
    After-weaken (raised e (s, t)) f h = f t h

    pub Ensures-weaken :
        (I : T → Type κ') (m : Action E (S × T) B)
        → ((t : T) → R t → R' t)
        → Ensures (λ st. I st.1) m (Rest K) (Rest R)
        → Ensures (λ st. I st.1) m (Rest K) (Rest R')
    unfolding Ensures
    Ensures-weaken I m f h s i = After-weaken (m s) f (h s i)

  module _ {ℓ''} {B : Type ℓ''} (I : T → Type κ') (K : B → S × T → Type κ') (R : T → Type κ') where
    pub Ensures-outside_bind {κ''} :
        {A : Type κ''} (m : Action E S A) (f : A → Action E (S × T) B)
        → ((t : T) → I t → R t)
        → ((a : A) → Ensures (λ st. I st.1) (f a) K (Rest R))
        → Ensures (λ st. I st.1) (outside m >>= f) K (Rest R)
    Ensures-outside_bind m f h k =
        Ensures-bind (Rest I) K (Rest R) (λ st. I st.1) (outside m) f (Ensures-outside I R m h) k

    pub Ensures-ensure_bind :
        (b : Bool) (e : E) (f : Unit {0} → Action E (S × T) B)
        → ((t : T) → I t → R t)
        → Ensures (λ st. I st.1) (f tt) K (Rest R)
        → Ensures (λ st. I st.1) (ensure b e >>= f) K (Rest R)
    unfolding Ensures ◌>>=◌ ensure
    Ensures-ensure_bind true e f h k st i = k st i
    Ensures-ensure_bind false e f h k (s, t) i = h t i

    pub Ensures-on_rest_bind :
        (I' : T → Type κ') (g : T → T) (f : Unit {0} → Action E (S × T) B)
        → ((t : T) → I t → I' (g t))
        → Ensures (λ st. I' st.1) (f tt) K (Rest R)
        → Ensures (λ st. I st.1) (on_rest g >>= f) K (Rest R)
    unfolding Ensures ◌>>=◌ on_rest
    Ensures-on_rest_bind I' g f h k (s, t) i = k (s, g t) (h t i)
