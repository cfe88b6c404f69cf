-- ===== src/LiveBaseline/Refusal.antt =====
-- hack/analyze/live_baseline.py: the exceptions of its checks. A ValueError of a check is kept with
-- its message.
use predictive_hpa.Prelude.{
  String, Bool, false, ◌≡◌, ap, List, Result, ok, err, ok-injective, any_of, not, ◌&&◌, Option,
  some, none,
}
use predictive_hpa.Prelude.Int.{pos}
use predictive_hpa.Float
use predictive_hpa.Float.{Float, of_ℤ}
use predictive_hpa.Json.{Json, int, float, is_str, Error}

pub data Refusal : Type 0 where
  refused : String → Refusal
  raised : Error → Refusal

abbrev pub caught {ℓ} : {A : Type ℓ} → Result Error A → Result Refusal A
caught (ok a) = ok a
caught (err e) = err (raised e)

pub caught-eq-ok {ℓ} : {A : Type ℓ} (r : Result Error A) (a : A) → caught r ≡ ok a → r ≡ ok a
caught-eq-ok (ok a) b h = ap ok (ok-injective {E = Refusal} a b h)
caught-eq-ok (err e) b h = cc

-- `v in (…)` for texts
abbrev pub is_one_of : List String → Json → Bool
is_one_of names v = any_of (λ name. is_str name v) names

-- `isinstance(v, (int, float)) and not isinstance(v, bool)`, with the number
abbrev pub plain_number : Json → Option Float
plain_number (int n) = some (of_ℤ n)
plain_number (float x) = some x
plain_number _ = none

-- A finite number that is not negative.
abbrev pub is_nonnegative : Option Float → Bool
is_nonnegative none = false
is_nonnegative (some x) = Float.isfinite x && not (Float.lt_int x (pos 0))
