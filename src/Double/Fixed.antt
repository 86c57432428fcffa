-- ===== src/Double/Fixed.antt =====
-- A number type with the operations of `double`, for runs and instances: whole millionths, and NaN.
use dmopenarm.Base.{
  ℕ, ◌+◌, ◌-◌, ◌*◌, ◌/◌, ◌^◌, Bool, false, not, Option, none, some, [], ◌∷◌, ◌==◌, if◌then◌else◌,
  length,
}
use dmopenarm.Base.Int.{ℤ, pos, negsuc, ◌+ℤ◌, ◌-ℤ◌, ◌*ℤ◌, abs_ℤ, ltb_ℤ, sub_ℕ}
use dmopenarm.Text.{Text, codes, text_eq}
use dmopenarm.Text.Stoul.{read_digits, read_number}
use dmopenarm.Double.{Double}

pub data Fixed : Type 0 where
  nan : Fixed
  micro : ℤ → Fixed

-- A number of millionths.
abbrev pub milli : ℤ → Fixed
milli (pos n) = micro (pos (n * 1000))
milli (negsuc n) = micro (negsuc (n * 1000 + 999))

abbrev on_both : (ℤ → ℤ → ℤ) → Fixed → Fixed → Fixed
on_both f (micro a) (micro b) = micro (f a b)
on_both f _ _ = nan

unfoldable pub lt : Fixed → Fixed → Bool
lt (micro a) (micro b) = ltb_ℤ a b
lt _ _ = false

unfoldable pub le : Fixed → Fixed → Bool
le (micro a) (micro b) = not (ltb_ℤ b a)
le _ _ = false

unfoldable pub add : Fixed → Fixed → Fixed
unfolding ◌+ℤ◌
add = on_both ◌+ℤ◌

unfoldable pub sub : Fixed → Fixed → Fixed
unfolding ◌-ℤ◌
sub = on_both ◌-ℤ◌

millionth : ℤ → ℤ
millionth (pos n) = pos (n / 1_000_000)
millionth (negsuc n) = negsuc (n / 1_000_000)

unfoldable pub mul : Fixed → Fixed → Fixed
unfolding ◌*ℤ◌ millionth
mul = on_both λ a b. millionth (a *ℤ b)

unfoldable pub abs : Fixed → Fixed
unfolding abs_ℤ
abs nan = nan
abs (micro a) = micro (abs_ℤ a)

-- Six digits after the point, or fewer.
fraction : Text → ℕ × Text
unfolding read_digits
fraction [] = (0, [])
fraction (c ∷ rest) =
    let (n, after) = read_digits 10 0 rest in
    if c == b'.' then (n * 10 ^ (6 - (length rest - length after)), after) else (0, c ∷ rest)

unsigned : Text → Option (ℕ × Text)
unfolding read_number fraction
unsigned text = elim (read_number 10 text) [
  | none ↦ none
  | some (n, rest) ↦ let (k, after) = fraction rest in some (n * 1_000_000 + k, after)
]

signed : Text → Text → Option (Fixed × ℕ)
unfolding unsigned
signed text [] = none
signed text (c ∷ rest) =
    if c == b'-'
    then elim (unsigned rest) [
      | none ↦ none
      | some (n, after) ↦ some (micro (sub_ℕ 0 n), length text - length after)
    ]
    else elim (unsigned (c ∷ rest)) [
      | none ↦ none
      | some (n, after) ↦ some (micro (pos n), length text - length after)
    ]

unfoldable pub stod : Text → Option (Fixed × ℕ)
unfolding signed text_eq codes
stod text = if text_eq text (codes "nan") then some (nan, 3) else signed text text

instance abbrev pub fixed : Double Fixed
fixed = record {
  literal = λ n d. micro (pos (n * 1_000_000 / d));
  lt = lt;
  le = le;
  add = add;
  sub = sub;
  mul = mul;
  abs = abs;
  stod = stod;
}
