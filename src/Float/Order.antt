-- ===== src/Float/Order.antt =====
-- The order of the finite floats.
use predictive_hpa.Prelude.{true, false, ◌≡◌, refl, arith}
use predictive_hpa.Float.{Float, finite, nan, inf, neg_inf, lt, isfinite}

pub lt_irrefl : (x : Float) → lt x x ≡ false
lt_irrefl (finite n k) = ground arith
lt_irrefl nan = refl
lt_irrefl inf = refl
lt_irrefl neg_inf = refl

pub lt_asymm :
    (x y : Float) → isfinite x ≡ true → isfinite y ≡ true → lt x y ≡ true → lt y x ≡ false
lt_asymm (finite n k) (finite m l) p q h = ground arith
lt_asymm (finite n k) nan p q h = cc
lt_asymm (finite n k) inf p q h = cc
lt_asymm (finite n k) neg_inf p q h = cc
lt_asymm nan y p q h = cc
lt_asymm inf y p q h = cc
lt_asymm neg_inf y p q h = cc

-- `y <= x` and `z <= y` give `z <= x`.
pub not_lt_trans :
    (x y z : Float)
    → isfinite x ≡ true
    → isfinite y ≡ true
    → isfinite z ≡ true
    → lt x y ≡ false
    → lt y z ≡ false
    → lt x z ≡ false
not_lt_trans (finite n k) (finite m l) (finite i j) p q r g h = ground arith
not_lt_trans nan y z p q r g h = cc
not_lt_trans inf y z p q r g h = cc
not_lt_trans neg_inf y z p q r g h = cc
not_lt_trans x nan z p q r g h = cc
not_lt_trans x inf z p q r g h = cc
not_lt_trans x neg_inf z p q r g h = cc
not_lt_trans x y nan p q r g h = cc
not_lt_trans x y inf p q r g h = cc
not_lt_trans x y neg_inf p q r g h = cc
