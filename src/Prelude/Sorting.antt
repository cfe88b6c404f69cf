-- ===== src/Prelude/Sorting.antt =====
-- Python's `sort`: stable, by an order that may raise. Equal keys keep the order they came in.
use predictive_hpa.Prelude.Tests.{if◌then◌else◌, Bool-cases}
use predictive_hpa.Prelude.Lists.{All, length, sum_by}
use native.Mathlib.Omega.{arith}
use predictive_hpa.Prelude.Results.{Result, ok, ◌>>=◌, on_ok, ok-injective, bind_ok}
use mathlib.Core.Path.{◌≡◌, refl, subst, ap, ◌∙◌}
use Prim.Native.Nat.{ℕ, suc, ◌+◌}
use mathlib.Core.Logic.{◌⊎◌, inl, inr}
use mathlib.Core.Bool.{Bool, true, false}
use mathlib.Core.List.{List, [], ◌∷◌, Perm}
use mathlib.Core.List.Perm

module _ {ℓ κ} {A : Type ℓ} {E : Type κ} (less : A → A → Result E Bool) where
  unfoldable pub insert : A → List A → Result E (List A)
  insert x [] = ok (x ∷ [])
  insert x (y ∷ ys) =
      let deeper = do rest ← insert x ys; ok (y ∷ rest)
      in do before ← less y x; if before then deeper else ok (x ∷ y ∷ ys)

  unfoldable pub sort : List A → Result E (List A)
  unfolding insert
  sort [] = ok []
  sort (x ∷ xs) = do rest ← sort xs; insert x rest

  -- The comparison either puts `a` before `b` or does not put `b` before `a`.
  abbrev pub InOrder : A → A → Type κ
  InOrder a b = (less a b ≡ ok true) ⊎ (less b a ≡ ok false)

  abbrev Before : A → List A → Type κ
  Before a [] = Unit
  Before a (b ∷ bs) = InOrder a b

  -- Each neighbour is in order with the next.
  abbrev pub IsSorted : List A → Type κ
  IsSorted [] = Unit
  IsSorted (a ∷ rest) = Before a rest × IsSorted rest

  -- The two ways in which a round of `insert` ends.
  insert_step {ℓ'} :
      {P : Type ℓ'} (x y : A) (ys zs : List A) (before : Bool)
      → (if before then (insert x ys >>= λ (rest : List A). ok (y ∷ rest)) else ok (x ∷ y ∷ ys))
        ≡ ok zs
      → ((rest : List A) → insert x ys ≡ ok rest → (y ∷ rest) ≡ zs → P)
      → ((x ∷ y ∷ ys) ≡ zs → P)
      → P
  insert_step x y ys zs true h f g =
      on_ok (insert x ys) _ h λ rest found e. f rest found (ok-injective {E = E} _ _ e)
  insert_step x y ys zs false h f g = g (ok-injective {E = E} _ _ h)

  insert-perm : (x : A) (ys zs : List A) → insert x ys ≡ ok zs → Perm zs (x ∷ ys)
  unfolding insert
  insert-perm x [] zs h = subst (λ l. Perm l (x ∷ [])) (ok-injective {E = E} _ _ h) Perm.rfl
  insert-perm x (y ∷ ys) zs h = on_ok (less y x) _ h λ before test h'.
      insert_step x y ys zs before h'
        (λ rest found e.
          subst (λ l. Perm l (x ∷ y ∷ ys)) e
            (Perm.trans (Perm.cons y (insert-perm x ys rest found)) (Perm.swap x y ys)))
        (λ e. subst (λ l. Perm l (x ∷ y ∷ ys)) e Perm.rfl)

  insert-Before :
      (w x : A) (ys zs : List A) → insert x ys ≡ ok zs → InOrder w x → Before w ys → Before w zs
  unfolding insert
  insert-Before w x [] zs h r b = subst (Before w) (ok-injective {E = E} _ _ h) r
  insert-Before w x (y ∷ ys) zs h r b = on_ok (less y x) _ h λ before test h'.
      insert_step x y ys zs before h' (λ rest found e. subst (Before w) e b)
        (λ e. subst (Before w) e r)

  insert-IsSorted : (x : A) (ys zs : List A) → insert x ys ≡ ok zs → IsSorted ys → IsSorted zs
  unfolding insert
  insert-IsSorted x [] zs h s = subst IsSorted (ok-injective {E = E} _ _ h) (tt, tt)
  insert-IsSorted x (y ∷ ys) zs h s = on_ok (less y x) _ h λ before test h'.
      elim (Bool-cases before) [
        | inl first ↦ on_ok (insert x ys) _ (rw first at h') λ rest found h''.
            subst IsSorted (ok-injective {E = E} _ _ h'') (
              insert-Before y x ys rest found (inl (rw first at test)) s.0,
              insert-IsSorted x ys rest found s.1,
            )
        | inr after ↦
            subst IsSorted (ok-injective {E = E} _ _ (rw after at h')) (inr (rw after at test), s)
      ]

  -- A sort that does not raise gives a rearrangement of the list.
  pub sort-perm : (xs ys : List A) → sort xs ≡ ok ys → Perm ys xs
  unfolding sort
  sort-perm [] ys h = subst (λ l. Perm l []) (ok-injective {E = E} _ _ h) Perm.rfl
  sort-perm (x ∷ xs) ys h =
      on_ok (sort xs) _ h λ rest found h'.
        Perm.trans (insert-perm x rest ys h') (Perm.cons x (sort-perm xs rest found))

  -- Its neighbours are in order.
  pub sort-IsSorted : (xs ys : List A) → sort xs ≡ ok ys → IsSorted ys
  unfolding sort
  sort-IsSorted [] ys h = subst IsSorted (ok-injective {E = E} _ _ h) tt
  sort-IsSorted (x ∷ xs) ys h =
      on_ok (sort xs) _ h
        λ rest found h'. insert-IsSorted x rest ys h' (sort-IsSorted xs rest found)

  insert-All {ℓ'} :
      (P : A → Type ℓ') (x : A) (ys zs : List A) → insert x ys ≡ ok zs → P x → All P ys → All P zs
  unfolding insert
  insert-All P x [] zs h p a = subst (All P) (ok-injective {E = E} _ _ h) (p, tt)
  insert-All P x (y ∷ ys) zs h p a = on_ok (less y x) _ h λ before test h'.
      insert_step x y ys zs before h'
        (λ rest found e. subst (All P) e (a.0, insert-All P x ys rest found p a.1))
        (λ e. subst (All P) e (p, a))

  -- What holds of all elements holds of all of them sorted.
  pub sort-All {ℓ'} : (P : A → Type ℓ') (xs ys : List A) → sort xs ≡ ok ys → All P xs → All P ys
  unfolding sort
  sort-All P [] ys h a = subst (All P) (ok-injective {E = E} _ _ h) tt
  sort-All P (x ∷ xs) ys h a =
      on_ok (sort xs) _ h
        λ rest found h'. insert-All P x rest ys h' a.0 (sort-All P xs rest found a.1)

  insert-length : (x : A) (ys zs : List A) → insert x ys ≡ ok zs → length zs ≡ suc (length ys)
  unfolding insert
  insert-length x [] zs h = subst (λ l. length l ≡ 1) (ok-injective {E = E} _ _ h) refl
  insert-length x (y ∷ ys) zs h = on_ok (less y x) _ h λ before test h'.
      insert_step x y ys zs before h'
        (λ rest found e.
          subst (λ l. length l ≡ suc (suc (length ys))) e (ap suc (insert-length x ys rest found)))
        (λ e. subst (λ l. length l ≡ suc (suc (length ys))) e refl)

  pub sort-length : (xs ys : List A) → sort xs ≡ ok ys → length ys ≡ length xs
  unfolding sort
  sort-length [] ys h = subst (λ l. length l ≡ 0) (ok-injective {E = E} _ _ h) refl
  sort-length (x ∷ xs) ys h =
      on_ok (sort xs) _ h
        λ rest found h'. insert-length x rest ys h' ∙ ap suc (sort-length xs rest found)

  insert-sum_by :
      (f : A → ℕ) (x : A) (ys zs : List A) → insert x ys ≡ ok zs → sum_by f zs ≡ f x + sum_by f ys
  unfolding insert
  insert-sum_by f x [] zs h =
      subst (λ l. sum_by f l ≡ f x + sum_by f []) (ok-injective {E = E} _ _ h) refl
  insert-sum_by f x (y ∷ ys) zs h = on_ok (less y x) _ h λ before test h'.
      insert_step x y ys zs before h'
        (λ rest found e.
          subst (λ l. sum_by f l ≡ f x + (f y + sum_by f ys)) e
            (omega (arith, insert-sum_by f x ys rest found)))
        (λ e. subst (λ l. sum_by f l ≡ f x + (f y + sum_by f ys)) e refl)

  -- A sum over the elements does not depend on their order.
  pub sort-sum_by : (f : A → ℕ) (xs ys : List A) → sort xs ≡ ok ys → sum_by f ys ≡ sum_by f xs
  unfolding sort
  sort-sum_by f [] ys h = subst (λ l. sum_by f l ≡ 0) (ok-injective {E = E} _ _ h) refl
  sort-sum_by f (x ∷ xs) ys h = on_ok (sort xs) _ h λ rest found h'.
      insert-sum_by f x rest ys h' ∙ ap (λ (n : ℕ). f x + n) (sort-sum_by f xs rest found)

  -- A sort of elements that can all be compared does not raise.
  module _ {ℓ'} (P : A → Type ℓ')
      (total : (a b : A) → P a → P b → (r : Bool) × (less a b ≡ ok r)) where
    insert_returns : (x : A) (ys : List A) → P x → All P ys → (zs : List A) × (insert x ys ≡ ok zs)
    unfolding insert
    insert_returns x [] p a = (x ∷ [], refl)
    insert_returns x (y ∷ ys) p a =
        let (before, tested) = total y x a.0 p in
        let (rest, found) = insert_returns x ys p a.1 in
        elim (Bool-cases before) [
          | inl first ↦ (y ∷ rest, rw (tested, first, found) refl)
          | inr after ↦ (x ∷ y ∷ ys, rw (tested, after) refl)
        ]

    pub sort_returns : (xs : List A) → All P xs → (ys : List A) × (sort xs ≡ ok ys)
    unfolding sort
    sort_returns [] a = ([], refl)
    sort_returns (x ∷ xs) a =
        let (rest, found) = sort_returns xs a.1 in
        let (ys, done) = insert_returns x rest a.0 (sort-All P xs rest found a.1) in
        (ys, bind_ok (insert x) found done)
