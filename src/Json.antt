-- ===== src/Json.antt =====
-- The values that `json.loads` and `yaml.safe_load` give and that the analysis code walks: their
-- equality, truth and order in Python, and the accesses that may raise. A mapping lists its entries
-- once for each key, in order of insertion.
use predictive_hpa.Prelude.{
  ℕ, suc, Bool, true, false, not, ◌&&◌, Option, some, none, String, List, [], ◌∷◌, ◌==◌,
  if◌then◌else◌, Result, ok, err, ◌≡◌, refl, sym, ap, ◌∙◌, ok-injective, Bool-cases, inl, inr,
  false≢true,
}
use predictive_hpa.Prelude.Int.{ℤ, pos, eq_ℤ}
use predictive_hpa.Float
use predictive_hpa.Float.{Float, finite, nan, inf, neg_inf, of_ℤ, lt}
use text.Mathlib.TextEquality.{eq_iff}
use text.Mathlib.Text.{◌==◌ as str_eq, is_lt}
use Prim.Native.String.{compare}
use Prim.Native.String as Text

mutual
  pub data Json : Type 0 where
    null : Json
    bool : Bool → Json
    int : ℤ → Json
    float : Float → Json
    str : String → Json
    arr : Items → Json
    obj : Fields → Json

  pub data Items : Type 0 where
    nil : Items
    cons : Json → Items → Items

  pub data Fields : Type 0 where
    end : Fields
    field : String → Json → Fields → Fields

-- A file that is read and parsed: `unreadable` is a YAMLError or a JSONDecodeError with its message.
pub data File : Type 0 where
  missing : File
  unreadable : String → File
  parsed : Json → File

-- What an access raises.
pub data Error : Type 0 where
  attribute_error type_error key_error index_error value_error overflow_error : Error

-- `d.get(k)`; a missing entry and an entry that is None read the same.
abbrev pub get_field : String → Fields → Json
get_field k end = null
get_field k (field j v fs) = if str_eq j k then v else get_field k fs

-- `k in d`
abbrev pub has_field : String → Fields → Bool
has_field k end = false
has_field k (field j v fs) = if str_eq j k then true else has_field k fs

abbrev pub count_fields : Fields → ℕ
count_fields end = 0
count_fields (field j v fs) = suc (count_fields fs)

abbrev pub is_null : Json → Bool
is_null null = true
is_null _ = false

-- `isinstance(v, dict)`
abbrev pub is_obj : Json → Bool
is_obj (obj _) = true
is_obj _ = false

-- `v is True`, `v is False`
abbrev pub is_bool : Bool → Json → Bool
is_bool true (bool true) = true
is_bool false (bool false) = true
is_bool _ _ = false

-- `v == s` for a text
abbrev pub is_str : String → Json → Bool
is_str s (str t) = str_eq t s
is_str s _ = false

-- `bool(v)`
unfoldable pub truthy : Json → Bool
truthy null = false
truthy (bool b) = b
truthy (int n) = not (eq_ℤ n (pos 0))
truthy (float x) = not (Float.eq_int x (pos 0))
truthy (str s) = not (str_eq s "")
truthy (arr nil) = false
truthy (arr (cons _ _)) = true
truthy (obj end) = false
truthy (obj (field _ _ _)) = true

-- `v or w`
abbrev pub or_else : Json → Json → Json
or_else v w = if truthy v then v else w

-- A mapping and a list are no dictionary keys.
abbrev pub hashable : Json → Bool
hashable (arr _) = false
hashable (obj _) = false
hashable _ = true

-- `bool` and `int` compare as numbers with `float`.
abbrev pub number? : Json → Option Float
number? (bool false) = some (of_ℤ (pos 0))
number? (bool true) = some (of_ℤ (pos 1))
number? (int n) = some (of_ℤ n)
number? (float x) = some x
number? _ = none

abbrev pub eq_float : Float → Float → Bool
eq_float (finite n k) (finite m l) = eq_ℤ n m && (k == l)
eq_float inf inf = true
eq_float neg_inf neg_inf = true
eq_float _ _ = false

abbrev pub eq_number : Option Float → Option Float → Bool
eq_number (some x) (some y) = eq_float x y
eq_number _ _ = false

-- `v == w`. Two mappings are equal when they have the same keys with equal values, in any order.
unfoldable mutual
  pub eq : Json → Json → Bool
  eq null null = true
  eq (str s) (str t) = str_eq s t
  eq (arr xs) (arr ys) = eq_items xs ys
  eq (obj fs) (obj gs) = (count_fields fs == count_fields gs) && eq_fields fs gs
  eq v w = eq_number (number? v) (number? w)

  pub eq_items : Items → Items → Bool
  eq_items nil nil = true
  eq_items (cons v vs) (cons w ws) = eq v w && eq_items vs ws
  eq_items _ _ = false

  pub eq_fields : Fields → Fields → Bool
  eq_fields end gs = true
  eq_fields (field k v fs) gs = has_field k gs && eq v (get_field k gs) && eq_fields fs gs

less_number : Option Float → Option Float → Result Error Bool
less_number (some x) (some y) = ok (lt x y)
less_number _ _ = err type_error

-- `v < w`: numbers, texts by their code points and lists by their first difference; anything else
-- cannot be ordered.
unfoldable mutual
  unfolding less_number

  pub less : Json → Json → Result Error Bool
  less (str s) (str t) = ok (is_lt (compare s t))
  less (arr xs) (arr ys) = less_items xs ys
  less v w = less_number (number? v) (number? w)

  pub less_items : Items → Items → Result Error Bool
  less_items nil nil = ok false
  less_items nil (cons _ _) = ok true
  less_items (cons _ _) nil = ok false
  less_items (cons v vs) (cons w ws) =
      let rest = less_items vs ws in let here = less v w in if eq v w then rest else here

-- `v.get(k)`: only a mapping has the method.
unfoldable pub get : String → Json → Result Error Json
get k (obj fs) = ok (get_field k fs)
get k _ = err attribute_error

-- `v.get(k, d)`
unfoldable pub get_or : String → Json → Json → Result Error Json
get_or k d (obj fs) = ok (if has_field k fs then get_field k fs else d)
get_or k d _ = err attribute_error

-- `v[k]` for a text k
unfoldable pub item : String → Json → Result Error Json
item k (obj fs) = if has_field k fs then ok (get_field k fs) else err key_error
item k _ = err type_error

-- A mapping from its entries.
abbrev pub fields : List (String × Json) → Fields
fields [] = end
fields ((k, v) ∷ es) = field k v (fields es)

-- The value under nested keys, or None.
abbrev pub at : List String → Json → Json
at [] v = v
at (k ∷ ks) (obj fs) = at ks (get_field k fs)
at (k ∷ ks) _ = null

pub is_str-eq : (s : String) (v : Json) → is_str s v ≡ true → v ≡ str s
is_str-eq s (str t) h = ap str ((eq_iff t s).0 h)
is_str-eq s v h = cc

pub get-at : (k : String) (v w : Json) → get k v ≡ ok w → at (k ∷ []) v ≡ w
unfolding get
get-at k (obj fs) w h = ok-injective {E = Error} _ _ h
get-at k v w h = cc

at-null : (ks : List String) → at ks null ≡ null
at-null [] = refl
at-null (k ∷ ks) = refl

at-end : (k : String) (ks : List String) → at (k ∷ ks) (obj end) ≡ null
at-end k ks = at-null ks

get_field-eq-null : (k : String) (fs : Fields) → has_field k fs ≡ false → get_field k fs ≡ null
get_field-eq-null k end h = refl
get_field-eq-null k (field j v fs) h = elim (Bool-cases (str_eq j k)) [
  | inl e ↦ absurd (false≢true (sym (rw e at h)))
  | inr e ↦ rw e (get_field-eq-null k fs (rw e at h))
]

-- A missing mapping reads as an empty one.
pub get_or-at :
    (k : String) (v w : Json) (j : String) (ks : List String)
    → get_or k (obj end) v ≡ ok w
    → at (k ∷ j ∷ ks) v ≡ at (j ∷ ks) w
unfolding get_or
get_or-at k (obj fs) w j ks h = elim (Bool-cases (has_field k fs)) [
  | inl e ↦ ap (at (j ∷ ks)) (ok-injective {E = Error} _ _ (rw e at h))
  | inr e ↦
      ap (at (j ∷ ks)) (get_field-eq-null k fs e)
      ∙ (sym (at-end j ks) ∙ ap (at (j ∷ ks)) (ok-injective {E = Error} _ _ (rw e at h)))
]
get_or-at k v w j ks h = cc

-- The values of a list.
abbrev pub elements : Items → List Json
elements nil = []
elements (cons v vs) = v ∷ elements vs

pub item-at : (k : String) (v w : Json) → item k v ≡ ok w → at (k ∷ []) v ≡ w
unfolding item
item-at k (obj fs) w h = elim (Bool-cases (has_field k fs)) [
  | inl e ↦ ok-injective {E = Error} _ _ (rw e at h)
  | inr e ↦ let h' = rw e at h in cc
]
item-at k v w h = cc

-- `v[0]`
abbrev pub first_of : Json → Result Error Json
first_of (arr (cons v _)) = ok v
first_of (arr nil) = err Error.index_error
first_of (str (Text.◌∷◌ c _)) = ok (str (Text.◌∷◌ c Text.[]))
first_of (str Text.[]) = err Error.index_error
first_of (obj _) = err Error.key_error
first_of _ = err Error.type_error

abbrev pub characters : String → List Json
characters Text.[] = []
characters (Text.◌∷◌ c s) = str (Text.◌∷◌ c Text.[]) ∷ characters s

abbrev pub keys : Fields → List Json
keys end = []
keys (field k _ fs) = str k ∷ keys fs

-- `for v in values`
abbrev pub iterate : Json → Result Error (List Json)
iterate (arr vs) = ok (elements vs)
iterate (str s) = ok (characters s)
iterate (obj fs) = ok (keys fs)
iterate _ = err Error.type_error
