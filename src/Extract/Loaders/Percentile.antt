-- ===== src/Extract/Loaders/Percentile.antt =====
-- hack/analyze/extract.py, percentile: linear interpolation between the neighbours of a position in
-- the sorted samples, which are taken to hold no NaN. Python's operations on floats are a parameter.
use predictive_hpa.Prelude.{
  ℕ, suc, ◌-◌, Bool, Option, some, none, List, [], ◌∷◌, length, get_elem?, Result, ok, err, ◌>>=◌,
  if◌then◌else◌, ltb,
}
use predictive_hpa.Prelude.Int.{ℤ, pos, negsuc, ◌+ℤ◌, ltb_ℤ, eq_ℤ}
use predictive_hpa.Prelude.Sorting.{sort}
use predictive_hpa.Float
use predictive_hpa.Float.{Float, of_ℤ, lt, Operations}
use predictive_hpa.Json.{Error}
use predictive_hpa.Extract.Loaders.Values.{int_of_float}
pub mod Exact
pub mod Interpolated

-- The order of `sorted`.
abbrev pub less_float : Float → Float → Result Error Bool
less_float x y = ok (lt x y)

abbrev pub or_index_error : Option Float → Result Error Float
or_index_error none = err Error.index_error
or_index_error (some x) = ok x

-- `s[i]`, where a negative index counts from the end.
abbrev pub item_at : List Float → ℤ → Result Error Float
item_at s (pos i) = or_index_error (get_elem? s i)
item_at s (negsuc i) =
    if ltb i (length s)
    then or_index_error (get_elem? s (length s - suc i))
    else err Error.index_error

-- `min(a, b)`
abbrev pub min_ℤ : ℤ → ℤ → ℤ
min_ℤ a b = if ltb_ℤ b a then b else a

module _ (o : Operations) where
  -- `(len(s) - 1) * (p / 100.0)`
  abbrev pub position : ℕ → ℕ → Float
  position last p = o.times (of_ℤ (pos last)) (o.divide (of_ℤ (pos p)) (of_ℤ (pos 100)))

  -- `s[f] + (s[c] - s[f]) * (k - f)`
  unfoldable pub interpolate : List Float → Float → ℤ → ℤ → Result Error Float
  interpolate s k f c = do
    low ← item_at s f
    high ← item_at s c
    ok (o.plus low (o.times (o.minus high low) (o.minus k (of_ℤ f))))

  -- The value at the position `k` of the samples, the last of which has the index `last`.
  unfoldable pub value_at : List Float → ℕ → Float → Result Error Float
  value_at s last k = do
    f ← int_of_float (Float.int k)
    let c = min_ℤ (f +ℤ pos 1) (pos last) in (if eq_ℤ f c then item_at s f else interpolate s k f c)

  unfoldable pub of_sorted : ℕ → List Float → Result Error (Option Float)
  of_sorted p [] = ok none
  of_sorted p (x ∷ []) = ok (some x)
  of_sorted p (x ∷ y ∷ ys) = do
    value ← value_at (x ∷ y ∷ ys) (length (y ∷ ys)) (position (length (y ∷ ys)) p)
    ok (some value)

  -- `percentile(values, p)` for a whole number p.
  unfoldable pub percentile : List Float → ℕ → Result Error (Option Float)
  percentile [] p = ok none
  percentile (x ∷ xs) p = do s ← sort less_float (x ∷ xs); of_sorted p s
