-- ===== src/Latency/Values.antt =====
-- hack/analyze/latency.py, epoch: the times of the evidence, and what Python's float arithmetic and
-- its parsers make of them, which are parameters.
use predictive_hpa.Prelude.{
  String, Bool, true, false, ◌||◌, Option, some, none, Result, ok, err, ◌>>=◌, if◌then◌else◌,
}
use predictive_hpa.Prelude.Int.{pos}
use predictive_hpa.Float
use predictive_hpa.Float.{Float, of_ℤ}
use predictive_hpa.Json.{Json, bool, int, float, str, eq_float, Error}

-- `datetime.fromisoformat(s).timestamp()` with Z for the offset +00:00, None where it raises.
pub record Clock : Type 0 where
  pub timestamp : String → Option Float

-- `x - y`, `x + y`, `x * y` and `abs(x)`
pub record Arithmetic : Type 0 where
  pub minus : Float → Float → Float
  pub plus : Float → Float → Float
  pub times : Float → Float → Float
  pub absolute : Float → Float

-- `x <= y`, which is false for NaN
abbrev pub le : Float → Float → Bool
le x y = Float.lt x y || eq_float x y

abbrev or_value_error : Option Float → Result Error Float
or_value_error none = err Error.value_error
or_value_error (some x) = ok x

-- The result of `epoch`, which is refused where it is not finite.
abbrev pub finite_or_error : Float → Result Error Float
finite_or_error x = if Float.isfinite x then ok x else err Error.value_error

module _ (c : Clock) where
  pub seconds_of : Json → Result Error Float
  seconds_of (bool false) = ok (of_ℤ (pos 0))
  seconds_of (bool true) = ok (of_ℤ (pos 1))
  seconds_of (int n) = ok (of_ℤ n)
  seconds_of (float x) = ok x
  seconds_of (str s) = or_value_error (c.timestamp s)
  seconds_of _ = err Error.value_error

  unfoldable pub epoch : Json → Result Error Float
  unfolding seconds_of
  epoch v = do seconds ← seconds_of v; finite_or_error seconds
