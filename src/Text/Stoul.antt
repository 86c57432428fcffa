-- ===== src/Text/Stoul.antt =====
-- What the code uses of `std::stoul(text, &parsed, 0)`, where `unsigned long` has 64 bits. The base
-- is in the text: `0x` stands for 16, another leading `0` for 8. White space and a sign may come
-- first, and a minus sign negates modulo 2^64.
use dmopenarm.Base.{
  ℕ, ◌+◌, ◌-◌, ◌*◌, ◌%◌, ◌^◌, Bool, true, false, ◌&&◌, ◌||◌, Option, none, some, List, [], ◌∷◌, ltb,
  ◌==◌, if◌then◌else◌, length,
}
use dmopenarm.Text.Digits.{digit_value, is_digit}
use dmopenarm.Text.Tokens.{is_space}

abbrev pub ulong_mod : ℕ
ulong_mod = 2 ^ 64

unfoldable pub skip_space : List ℕ → List ℕ
skip_space [] = []
skip_space (c ∷ rest) = if is_space c then skip_space rest else c ∷ rest

-- Whether a minus sign stands first, and what follows the sign.
unfoldable pub sign : List ℕ → Bool × List ℕ
sign [] = (false, [])
sign (c ∷ rest) =
    if c == b'-' then (true, rest) else if c == b'+' then (false, rest) else (false, c ∷ rest)

abbrev is_x : ℕ → Bool
is_x c = c == b'x' || c == b'X'

octal_or_decimal : List ℕ → ℕ × List ℕ
octal_or_decimal [] = (10, [])
octal_or_decimal (c ∷ rest) = (if c == b'0' then 8 else 10, c ∷ rest)

-- The base, and the text from its first digit on: `0x` counts only before a hexadecimal digit.
unfoldable pub detect_base : List ℕ → ℕ × List ℕ
unfolding octal_or_decimal is_digit
detect_base (z ∷ x ∷ d ∷ rest) =
    if z == b'0' && is_x x && is_digit 16 d
    then (16, d ∷ rest)
    else octal_or_decimal (z ∷ x ∷ d ∷ rest)
detect_base text = octal_or_decimal text

-- The digits that stand first, added to `acc`, and what follows them.
unfoldable pub read_digits : ℕ → ℕ → List ℕ → ℕ × List ℕ
read_digits base acc [] = (acc, [])
read_digits base acc (c ∷ rest) = elim (digit_value base c) [
  | none ↦ (acc, c ∷ rest)
  | some d ↦ read_digits base (acc * base + d) rest
]

-- At least one digit must stand there.
unfoldable pub read_number : ℕ → List ℕ → Option (ℕ × List ℕ)
unfolding is_digit read_digits digit_value
read_number base [] = none
read_number base (c ∷ rest) = if is_digit base c then some (read_digits base 0 (c ∷ rest)) else none

-- The value, if it fits, and how many bytes of `text` were read.
unfoldable pub in_range : List ℕ → Bool → ℕ × List ℕ → Option (ℕ × ℕ)
in_range text negative (value, rest) =
    if ltb value ulong_mod
    then some
        (if negative then (ulong_mod - value) % ulong_mod else value, length text - length rest)
    else none

unfoldable pub stoul_digits : List ℕ → Bool → ℕ × List ℕ → Option (ℕ × ℕ)
unfolding read_number in_range
stoul_digits text negative (base, digits) = elim (read_number base digits) [
  | none ↦ none
  | some read ↦ in_range text negative read
]

unfoldable pub stoul_signed : List ℕ → Bool × List ℕ → Option (ℕ × ℕ)
unfolding detect_base stoul_digits
stoul_signed text (negative, body) = stoul_digits text negative (detect_base body)

-- `none` is the exception, `std::invalid_argument` or `std::out_of_range`.
unfoldable pub stoul : List ℕ → Option (ℕ × ℕ)
unfolding skip_space sign stoul_signed is_space
stoul text = stoul_signed text (sign (skip_space text))
