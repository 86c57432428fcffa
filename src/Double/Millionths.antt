-- ===== src/Double/Millionths.antt =====
-- The millionths of Double/Fixed.antt as an instance of the rounding of Double/Rounding.antt.
use dmopenarm.Base.{◌≡◌, refl, Option, none, some, arith}
use dmopenarm.Base.Int.{ℤ, ◌+ℤ◌, ◌-ℤ◌, ltb_ℤ}
use dmopenarm.Double.Fixed.{Fixed, nan, micro, fixed, lt, add, sub}
use dmopenarm.Double.Rounding.{Rounding, Within}

abbrev value : Fixed → Option ℤ
value nan = none
value (micro a) = some a

value-some : (x : Fixed) (a : ℤ) → value x ≡ some a → x ≡ micro a
value-some nan a e = cc
value-some (micro b) a e = cc

Within-refl : (a : ℤ) → Within a a 1
Within-refl a = (omega arith, omega arith)

pub lt_value :
    (x y : Fixed) (a b : ℤ) → value x ≡ some a → value y ≡ some b → fixed.lt x y ≡ ltb_ℤ a b
unfolding lt
lt_value x y a b e f = rw (value-some x a e, value-some y b f) refl

pub add_value :
    (x y : Fixed) (a b : ℤ)
    → value x ≡ some a
    → value y ≡ some b
    → (c : ℤ) × (value (fixed.add x y) ≡ some c) × Within c (a +ℤ b) 1
unfolding add
add_value x y a b e f = (a +ℤ b, rw (value-some x a e, value-some y b f) refl, Within-refl (a +ℤ b))

pub sub_value :
    (x y : Fixed) (a b : ℤ)
    → value x ≡ some a
    → value y ≡ some b
    → (c : ℤ) × (value (fixed.sub x y) ≡ some c) × Within c (a -ℤ b) 1
unfolding sub
sub_value x y a b e f = (a -ℤ b, rw (value-some x a e, value-some y b f) refl, Within-refl (a -ℤ b))

-- The sums of millionths are exact; they are said to be off by one at most.
abbrev pub rounding_fixed : Rounding fixed
rounding_fixed = record {
  value = value;
  bound = 1_000_000_000;
  error = 1;
  lt_value = lt_value;
  add_value = λ x y a b e f fits. add_value x y a b e f;
  sub_value = λ x y a b e f fits. sub_value x y a b e f;
}
