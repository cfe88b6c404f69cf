-- ===== src/LiveBaseline/Checks.antt =====
-- hack/analyze/live_baseline.py: the form of its checks, `if test or test: raise ValueError(…)`, where
-- each test may raise and the first that holds ends the search.
use predictive_hpa.Prelude.{
  String, Bool, true, false, not, ◌≡◌, ◌∙◌, ap, sym, List, [], ◌∷◌, ◌++◌, Result, ok, ◌>>=◌,
  raise_if, if◌then◌else◌, All, ok-injective, on_ok, passed, Bool-cases, inl, inr, false≢true,
  arith,
}
use predictive_hpa.Json.{Json, obj, get, item, item-at, at, eq, Error}
use predictive_hpa.LiveBaseline.Refusal.{Refusal, refused, caught, caught-eq-ok}
use mathlib.Core.Path.{subst}

-- `t or t or …`
abbrev pub any_test : List (Result Error Bool) → Result Error Bool
any_test [] = ok false
any_test (t ∷ ts) = let rest = any_test ts in do b ← t; if b then ok true else rest

unfoldable pub refuse_if : List (Result Error Bool) → String → Result Refusal (Unit {0})
refuse_if ts message = do b ← caught (any_test ts); raise_if b (refused message)

-- `v[k][l]…`
abbrev pub item_at : List String → Json → Result Error Json
item_at [] v = ok v
item_at (k ∷ ks) v = do w ← item k v; item_at ks w

-- A test on a value whose reading may raise.
abbrev pub test : (Json → Bool) → Result Error Json → Result Error Bool
test p m = do v ← m; ok (p v)

-- `v != w`
abbrev pub differ : Result Error Json → Result Error Json → Result Error Bool
differ m n = do v ← m; w ← n; ok (not (eq v w))

any_test-eq-false :
    (ts : List (Result Error Bool)) → any_test ts ≡ ok false → All (λ t. t ≡ ok false) ts
any_test-eq-false [] h = tt
any_test-eq-false (t ∷ ts) h = on_ok t _ h λ b e rest. elim (Bool-cases b) [
  | inl y ↦ absurd (false≢true (sym (ok-injective {E = Error} _ _ (rw y at rest))))
  | inr n ↦ (e ∙ ap ok n, any_test-eq-false ts (rw n at rest))
]

-- A check that passes: none of its tests holds.
refuse_if-passed :
    (ts : List (Result Error Bool)) (message : String)
    → refuse_if ts message ≡ ok tt
    → All (λ t. t ≡ ok false) ts
unfolding refuse_if
refuse_if-passed ts message h = on_ok (caught (any_test ts)) _ h λ b e rest.
    any_test-eq-false ts (caught-eq-ok (any_test ts) b e ∙ ap ok (passed b (refused message) rest))

-- Inversion of a check that passes, with what follows it and at the end.
pub on_refuse {ℓ ℓ'} :
    {B : Type ℓ} {P : Type ℓ'} (ts : List (Result Error Bool)) (message : String)
    (f : Unit {0} → Result Refusal B) {b : B}
    → (refuse_if ts message >>= f) ≡ ok b
    → (All (λ t. t ≡ ok false) ts → f tt ≡ ok b → P)
    → P
on_refuse ts message f h k =
    on_ok (refuse_if ts message) f h λ u passes rest. k (refuse_if-passed ts message passes) rest

pub on_last :
    (ts : List (Result Error Bool)) (message : String)
    → refuse_if ts message ≡ ok tt
    → All (λ t. t ≡ ok false) ts
on_last ts message h = refuse_if-passed ts message h

pub not-false : (b : Bool) → not b ≡ false → b ≡ true
not-false b h = ground arith

-- The value under further keys.
pub item-under :
    (k : String) (ks : List String) (v w : Json) → item k v ≡ ok w → at (k ∷ ks) v ≡ at ks w
unfolding item
item-under k ks (obj fs) w h = ap (at ks) (item-at k (obj fs) w h)
item-under k ks v w h = cc

pub get-under :
    (k : String) (ks : List String) (v w : Json) → get k v ≡ ok w → at (k ∷ ks) v ≡ at ks w
unfolding get
get-under k ks (obj fs) w h = ap (at ks) (ok-injective {E = Error} _ _ h)
get-under k ks v w h = cc

pub item_at-under :
    (ks ls : List String) (v w : Json) → item_at ks v ≡ ok w → at (ks ++ ls) v ≡ at ls w
item_at-under [] ls v w h = ap (at ls) (ok-injective {E = Error} v w h)
item_at-under (k ∷ ks) ls v w h =
    on_ok (item k v) _ h
      λ u here rest. item-under k (ks ++ ls) v u here ∙ item_at-under ks ls u w rest

item_at-at : (ks : List String) (v w : Json) → item_at ks v ≡ ok w → at ks v ≡ w
item_at-at [] v w h = ok-injective {E = Error} v w h
item_at-at (k ∷ ks) v w h =
    on_ok (item k v) _ h λ u here rest. item-under k ks v u here ∙ item_at-at ks u w rest

-- Two fields that were compared and found equal.
pub differ-eq-false :
    (ks ls : List String) (v w : Json)
    → differ (item_at ks v) (item_at ls w) ≡ ok false
    → eq (at ks v) (at ls w) ≡ true
differ-eq-false ks ls v w h = on_ok (item_at ks v) _ h λ x first h1.
    on_ok (item_at ls w) _ h1 λ y second h2.
      subst (λ s. eq s (at ls w) ≡ true) (sym (item_at-at ks v x first))
        (subst (λ s. eq x s ≡ true) (sym (item_at-at ls w y second))
          (not-false (eq x y) (ok-injective {E = Error} _ _ h2)))

-- A test that does not hold of what was read.
pub test-eq-false {ℓ} :
    {P : Type ℓ} (p : Json → Bool) (m : Result Error Json)
    → test p m ≡ ok false
    → ((v : Json) → m ≡ ok v → p v ≡ false → P)
    → P
test-eq-false p m h k = on_ok m _ h λ v e rest. k v e (ok-injective {E = Error} _ _ rest)

-- The same as a step of a `do` block over such proofs.
pub not_refused {ℓ ℓ'} :
    {B : Type ℓ} {P : Type ℓ'} (ts : List (Result Error Bool)) (message : String)
    (f : Unit {0} → Result Refusal B) {b : B}
    → (refuse_if ts message >>= f) ≡ ok b
    → ((All (λ t. t ≡ ok false) ts × (f tt ≡ ok b)) → P)
    → P
not_refused ts message f h k = on_refuse ts message f h λ passes rest. k (passes, rest)
