-- ===== src/Text/Digits.antt =====
-- Digits in bases up to 36, as the C library reads them: letters of either case stand for 10 to 35.
use dmopenarm.Base.{
  ℕ, ◌+◌, ◌-◌, ◌<◌, ◌≤◌, ◌≡◌, Bool, true, false, ◌&&◌, Option, none, some, arith, ltb, leb,
  if◌then◌else◌,
}

unfoldable pub letter_or_digit : ℕ → Option ℕ
letter_or_digit c =
    if leb b'0' c && leb c b'9'
    then some (c - 48)
    else if leb b'a' c && leb c b'z'
    then some (c - 87)
    else if leb b'A' c && leb c b'Z'
    then some (c - 55)
    else none

below : ℕ → ℕ → Option ℕ
below base d = if ltb d base then some d else none

-- The value of the digit `c` in this base.
unfoldable pub digit_value : ℕ → ℕ → Option ℕ
unfolding letter_or_digit below
digit_value base c = elim (letter_or_digit c) [ none ↦ none | some d ↦ below base d ]

unfoldable pub is_digit : ℕ → ℕ → Bool
unfolding digit_value
is_digit base c = elim (digit_value base c) [ none ↦ false | some _ ↦ true ]

-- The byte that prints the digit `d`, in lower case.
unfoldable pub digit_char : ℕ → ℕ
digit_char d = if ltb d 10 then d + 48 else d + 87

pub digit_value-digit_char :
    (base d : ℕ) → d < base → base ≤ 36 → digit_value base (digit_char d) ≡ some d
unfolding digit_value digit_char
digit_value-digit_char base d h w = ground arith

pub digit_value-lt : (base c d : ℕ) → digit_value base c ≡ some d → d < base
unfolding digit_value
digit_value-lt base c d h = ground arith
