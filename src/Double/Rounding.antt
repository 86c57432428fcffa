-- ===== src/Double/Rounding.antt =====
-- What IEEE 754 says of the sums of `double`: a finite number is a multiple of the least positive one, numbers are
-- compared exactly, and a sum or difference within some bound is off by no more than half the distance of two
-- neighbours at this bound.
use dmopenarm.Base.{ℕ, ◌≤◌, ◌+◌, ◌≡◌, Option, some}
use dmopenarm.Base.Int.{ℤ, pos_part, neg_part, ◌+ℤ◌, ◌-ℤ◌, ltb_ℤ}
use dmopenarm.Double.{Double}

-- Two integers are this close.
abbrev pub Within : ℤ → ℤ → ℕ → Type 0
Within a t m =
    (pos_part a + neg_part t ≤ pos_part t + neg_part a + m)
    × (pos_part t + neg_part a ≤ pos_part a + neg_part t + m)

abbrev pub size : ℤ → ℕ
size a = pos_part a + neg_part a

pub record Rounding {D : Type 0} (d : Double D) : Type 0 where
  -- The multiple; there is none for NaN and the infinities.
  pub value : D → Option ℤ
  pub bound : ℕ
  pub error : ℕ
  pub lt_value : (x y : D) (a b : ℤ) → value x ≡ some a → value y ≡ some b → d.lt x y ≡ ltb_ℤ a b
  pub add_value :
      (x y : D) (a b : ℤ)
      → value x ≡ some a
      → value y ≡ some b
      → size (a +ℤ b) ≤ bound
      → (c : ℤ) × (value (d.add x y) ≡ some c) × Within c (a +ℤ b) error
  pub sub_value :
      (x y : D) (a b : ℤ)
      → value x ≡ some a
      → value y ≡ some b
      → size (a -ℤ b) ≤ bound
      → (c : ℤ) × (value (d.sub x y) ≡ some c) × Within c (a -ℤ b) error
