-- ===== src/Double.antt =====
-- What the code uses of `double`: constants, the arithmetic and the comparisons that it makes, and
-- `std::stod`. Comparisons are Boolean, so that NaN can be a value
-- for which each of them is false. No law of the arithmetic is assumed here.
pub mod Fixed
pub mod Millionths
pub mod Rounding
use dmopenarm.Base.{ℕ, ◌≡◌, Bool, true, false, Option}
use dmopenarm.Text.{Text}

pub record Double (D : Type 0) : Type 0 where
  -- The constant nearest to a numerator over a denominator.
  pub literal : ℕ → ℕ → D
  pub lt : D → D → Bool
  pub le : D → D → Bool
  pub add : D → D → D
  pub sub : D → D → D
  pub mul : D → D → D
  pub abs : D → D
  -- The value and how many bytes were read; `none` where `std::stod` throws.
  pub stod : Text → Option (D × ℕ)

-- `0.0`.
abbrev pub zero_of : {D : Type 0} → Double D → D
zero_of d = d.literal 0 1

-- IEEE 754's NaN: every comparison with it is false, and it stays NaN under `abs`.
pub record IsNan {D : Type 0} (d : Double D) (x : D) : Type 0 where
  pub lt_left : (y : D) → d.lt x y ≡ false
  pub lt_right : (y : D) → d.lt y x ≡ false
  pub le_left : (y : D) → d.le x y ≡ false
  pub abs_nan : d.abs x ≡ x
