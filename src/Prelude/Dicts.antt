-- ===== src/Prelude/Dicts.antt =====
-- Dictionaries as association lists over a Boolean test of their keys, with the update that a
-- `defaultdict` allows, and sets of texts.
use predictive_hpa.Prelude.Tests.{◌==◌, if◌then◌else◌, Bool-cases}
use predictive_hpa.Prelude.Lists.{length, any_of, All, All-map}
use mathlib.Core.Path.{◌≡◌, refl, sym}
use mathlib.Core.Logic.{inl, inr}
use mathlib.Core.Bool.{Bool, true}
use mathlib.Core.List.{List, [], ◌∷◌}
use Prim.Native.String.{String}
use native.Mathlib.Omega.{arith}
use text.Mathlib.Text.{◌==◌ as str_eq}
use text.Mathlib.TextEquality.{eq_iff}
use text.Mathlib.TextPositions.{eq_refl}

module _ {ℓ κ} {K : Type ℓ} {V : Type κ} (same : K → K → Bool) (initial : V) where
  -- `d[k]` of a `defaultdict`
  abbrev pub value_at : K → List (K × V) → V
  value_at k [] = initial
  value_at k ((j, v) ∷ m) = if same j k then v else value_at k m

  -- `d[k] = f(d[k])` of a `defaultdict`, which appends a new key
  unfoldable pub update_at : K → (V → V) → List (K × V) → List (K × V)
  update_at k f [] = (k, f initial) ∷ []
  update_at k f ((j, v) ∷ m) =
      let rest = update_at k f m in if same j k then (j, f v) ∷ m else (j, v) ∷ rest

  -- An update never loses what it keeps at each value.
  pub update_at-keeps {κ'} :
      (P : V → Type κ') (f : V → V)
      → ((v : V) → P v → P (f v))
      → (k j : K) (m : List (K × V)) → P (value_at k m)
      → P (value_at k (update_at j f m))
  unfolding update_at
  update_at-keeps P f step k j [] h = elim (Bool-cases (same j k)) [
    | inl e ↦ rw e (step initial h)
    | inr e ↦ rw e h
  ]
  update_at-keeps P f step k j ((i, v) ∷ m) h = elim (Bool-cases (same i j)) [
    | inl e ↦ elim (Bool-cases (same i k)) [
      | inl e' ↦ rw (e, e') (step v (rw e' at h))
      | inr e' ↦ rw (e, e') (rw e' at h)
    ]
    | inr e ↦ elim (Bool-cases (same i k)) [
      | inl e' ↦ rw (e, e') (rw e' at h)
      | inr e' ↦ rw (e, e') (update_at-keeps P f step k j m (rw e' at h))
    ]
  ]

  pub value_at-update_at_self :
      (f : V → V) (k : K) (m : List (K × V))
      → same k k ≡ true
      → value_at k (update_at k f m) ≡ f (value_at k m)
  unfolding update_at
  value_at-update_at_self f k [] r = rw r refl
  value_at-update_at_self f k ((i, v) ∷ m) r = elim (Bool-cases (same i k)) [
    | inl e ↦ rw (e, e) refl
    | inr e ↦ rw (e, e) (value_at-update_at_self f k m r)
  ]

  -- What holds of the initial value and of every entry holds of each value that is read.
  pub value_at-All {κ'} :
      (P : V → Type κ') (k : K) (m : List (K × V))
      → P initial
      → All (λ (e : K × V). P e.1) m
      → P (value_at k m)
  value_at-All P k [] z h = z
  value_at-All P k ((i, v) ∷ m) z h = elim (Bool-cases (same i k)) [
    | inl e ↦ rw e h.0
    | inr e ↦ rw e (value_at-All P k m z h.1)
  ]

-- `s in texts`
abbrev pub holds : String → List String → Bool
holds s texts = any_of (λ t. str_eq t s) texts

-- `texts.add(s)`
abbrev pub add_text : String → List String → List String
add_text s texts = if holds s texts then texts else s ∷ texts

-- The set of the texts of a list.
abbrev pub distinct : List String → List String
distinct [] = []
distinct (s ∷ ss) = add_text s (distinct ss)

pub holds-add_text_self : (s : String) (texts : List String) → holds s (add_text s texts) ≡ true
holds-add_text_self s texts = elim (Bool-cases (holds s texts)) [
  | inl e ↦ rw (e, e) refl
  | inr e ↦ rw (e, eq_refl s) refl
]

pub holds-add_text :
    (s t : String) (texts : List String) → holds s texts ≡ true → holds s (add_text t texts) ≡ true
holds-add_text s t texts h = elim (Bool-cases (holds t texts)) [
  | inl e ↦ rw (e, h) refl
  | inr e ↦ rw (e, h) (ground arith)
]

pub distinct-All-holds : (ss : List String) → All (λ s. holds s (distinct ss) ≡ true) ss
distinct-All-holds [] = tt
distinct-All-holds (s ∷ ss) = (
  holds-add_text_self s (distinct ss),
  All-map ss (λ t. holds-add_text t s (distinct ss)) (distinct-All-holds ss),
)

abbrev pub first_text : List String → String
first_text [] = ""
first_text (s ∷ ss) = s

-- A set of one text holds no other.
pub holds-single :
    (s : String) (texts : List String)
    → (length texts == 1) ≡ true
    → holds s texts ≡ true
    → s ≡ first_text texts
holds-single s [] l h = cc
holds-single s (t ∷ []) l h = elim (Bool-cases (str_eq t s)) [
  | inl e ↦ sym ((eq_iff t s).0 e)
  | inr e ↦ absurd (ground arith)
]
holds-single s (t ∷ u ∷ ts) l h = absurd (ground arith)
