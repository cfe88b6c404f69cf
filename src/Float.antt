-- ===== src/Float.antt =====
-- Python's `float`, exactly: a finite double is a whole number of 2^-1074, which is kept as the
-- integer below it and the rest. Only what the code does with the floats that it reads is defined.
use predictive_hpa.Prelude.{ℕ, zero, suc, Bool, true, false, ◌&&◌, ◌||◌, ltb, ◌==◌}
use predictive_hpa.Prelude.{Result, ok, err}
use predictive_hpa.Prelude.Int.{ℤ, pos, negsuc, ltb_ℤ, eq_ℤ}
pub mod Order

pub data Float : Type 0 where
  nan : Float
  inf : Float
  neg_inf : Float
  -- `finite n k` is n + k / 2^1074, with k < 2^1074.
  finite : ℤ → ℕ → Float

-- `float(n)` of a small integer
abbrev pub of_ℤ : ℤ → Float
of_ℤ n = finite n 0

-- `math.isfinite(x)`
abbrev pub isfinite : Float → Bool
isfinite (finite n k) = true
isfinite _ = false

-- What `int(x)` raises: ValueError on NaN, OverflowError on an infinity.
pub data IntError : Type 0 where
  value_error overflow_error : IntError

-- The integer part: `int` rounds towards zero, so a negative number with a rest goes up.
abbrev pub truncate : ℤ → ℕ → ℤ
truncate (pos n) k = pos n
truncate (negsuc n) zero = negsuc n
truncate (negsuc zero) (suc k) = pos 0
truncate (negsuc (suc n)) (suc k) = negsuc n

-- `int(x)`
abbrev pub int : Float → Result IntError ℤ
int nan = err value_error
int inf = err overflow_error
int neg_inf = err overflow_error
int (finite n k) = ok (truncate n k)

-- `x < n` and `x == n` for an integer n; every comparison with NaN is false.
abbrev pub lt_int : Float → ℤ → Bool
lt_int nan m = false
lt_int inf m = false
lt_int neg_inf m = true
lt_int (finite n k) m = ltb_ℤ n m

abbrev pub eq_int : Float → ℤ → Bool
eq_int (finite n k) m = eq_ℤ n m && (k == 0)
eq_int _ m = false

-- `x < y`
abbrev pub lt : Float → Float → Bool
lt (finite n k) (finite m l) = ltb_ℤ n m || (eq_ℤ n m && ltb k l)
lt (finite n k) inf = true
lt neg_inf (finite m l) = true
lt neg_inf inf = true
lt _ _ = false

-- Python's operations, whose rounding is not defined here: `x - y`, `x + y`, `x * y`, `x / y` for a divisor that is not zero, and `round(x, digits)`
pub record Operations : Type 0 where
  pub minus : Float → Float → Float
  pub plus : Float → Float → Float
  pub times : Float → Float → Float
  pub divide : Float → Float → Float
  pub round : Float → ℕ → Float
