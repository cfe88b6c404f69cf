-- ===== src/Extract/Loaders/Percentile/Exact.antt =====
-- Floats of a fixed precision that are not negative, rounded down: the operations that the tests of
-- percentile run with.
use predictive_hpa.Prelude.{ℕ, ◌+◌, ◌-◌, ◌*◌, ◌/◌, ◌%◌, ◌≤◌, ◌≡◌, refl, ap, ◌∙◌, arith}
use predictive_hpa.Prelude.Int.{pos}
use predictive_hpa.Float.{Float, finite, of_ℤ, Operations}
use predictive_hpa.Extract.Loaders.Percentile.Interpolated.{IsPositioned}
use mathlib.Core.Path.{subst}
use native.Mathlib.Nat.{div-le_of_le-mul, div-add-mod', mul-le-mul_left, mul-le-mul_right, mul_comm}

-- A whole number has `unit` parts.
module _ (unit : ℕ) where
  abbrev amount : Float → ℕ
  amount (finite (pos n) k) = n * unit + k
  amount _ = 0

  abbrev of_amount : ℕ → Float
  of_amount a = finite (pos (a / unit)) (a % unit)

  abbrev pub operations : Operations
  operations = record {
    minus = λ x y. of_amount (amount x - amount y);
    plus = λ x y. of_amount (amount x + amount y);
    times = λ x y. of_amount (amount x * amount y / unit);
    divide = λ x y. of_amount (amount x * unit / amount y);
    round = λ x digits. x;
  }

  -- The parts of a number are its amount.
  of_amount_lem : (a : ℕ) → amount (of_amount a) ≡ a
  of_amount_lem a = div-add-mod' a unit

  scaled_le : (p : ℕ) → p ≤ 100 → p * unit + 0 ≤ 100 * unit + 0
  scaled_le p h = let k : p * unit ≤ 100 * unit = mul-le-mul_right unit h in omega arith

  total_le : (last e : ℕ) → e ≤ unit → (last * unit + 0) * e / unit ≤ unit * last
  total_le last e h =
      let c : last * unit ≡ unit * last = mul_comm last unit in
      let same : last * unit + 0 ≡ unit * last = omega arith in
      let swapped : (last * unit + 0) * unit ≡ unit * (unit * last) =
        mul_comm (last * unit + 0) unit ∙ ap (λ n. unit * n) same in
      div-le_of_le-mul unit
        (subst (λ b. (last * unit + 0) * e ≤ b) swapped (mul-le-mul_left (last * unit + 0) h))

  -- A part of a hundred is at most one.
  part_le_one :
      (p : ℕ) → p ≤ 100 → amount (operations.divide (of_ℤ (pos p)) (of_ℤ (pos 100))) ≤ unit
  part_le_one p h =
      rw of_amount_lem (div-le_of_le-mul (100 * unit + 0) (mul-le-mul_right unit (scaled_le p h)))

  -- Such a part of a count is at most the count.
  part_le_count : (last e : ℕ) → e ≤ unit → (last * unit + 0) * e / unit / unit ≤ last
  part_le_count last e h = div-le_of_le-mul unit (total_le last e h)

  pub operations-IsPositioned : IsPositioned operations
  operations-IsPositioned last p part = (_, _, refl, part_le_count last _ (part_le_one p part))
