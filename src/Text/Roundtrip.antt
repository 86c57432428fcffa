-- ===== src/Text/Roundtrip.antt =====
-- `std::stoul` reads back what `std::to_string` and `std::hex` print.
use dmopenarm.Base.{
  ℕ, zero, suc, ◌-◌, ◌%◌, ◌≤◌, ◌<◌, ◌≡◌, refl, ap, ◌∙◌, Bool, true, false, some, [], ◌∷◌, arith,
  length, if◌then◌else◌,
}
use dmopenarm.Text.{Text}
use dmopenarm.Text.Digits.{digit_char, digit_value, is_digit, digit_value-digit_char}
use dmopenarm.Text.Print.{print, to_string, to_hex}
use dmopenarm.Text.Tokens.{is_space}
use dmopenarm.Text.Stoul.{
  read_digits, read_number, detect_base, in_range, stoul_digits, stoul_signed, stoul, skip_space,
  sign, ulong_mod,
}
use dmopenarm.Text.Reading.{print-StartsWithDigit, read_digits-print}

detect_base-decimal :
    (d : ℕ) (rest : Text)
    → 0 < d
    → d < 10
    → detect_base (digit_char d ∷ rest) ≡ (10, digit_char d ∷ rest)
unfolding detect_base digit_char
detect_base-decimal d [] p h = ground arith
detect_base-decimal d (x ∷ []) p h = ground arith
detect_base-decimal d (x ∷ y ∷ rest) p h = ground arith

detect_base-hex :
    (d : ℕ) (rest : Text)
    → d < 16
    → detect_base (b'0' ∷ b'x' ∷ digit_char d ∷ rest) ≡ (16, digit_char d ∷ rest)
unfolding detect_base
detect_base-hex d rest h = rw (is_digit, digit_value-digit_char 16 d h (omega arith))

read_number-digits :
    (base n d : ℕ) (text rest : Text)
    → 2 ≤ base
    → base ≤ 36
    → d < base
    → text ≡ digit_char d ∷ rest
    → read_digits base 0 text ≡ (n, [])
    → read_number base text ≡ some (n, [])
unfolding read_number
read_number-digits base n d text rest b w h e r =
    rw (e, is_digit, digit_value-digit_char base d h w) (ap some (rw e at r))

in_range-whole :
    (text : Text) (negative : Bool) (n : ℕ)
    → n < ulong_mod
    → in_range text negative (n, [])
      ≡ some (if negative then (ulong_mod - n) % ulong_mod else n, length text)
unfolding in_range
in_range-whole text negative n h = ground arith

-- A body that is one number, in its base, is read whole.
stoul_signed-of_number :
    (text body digits : Text) (base : ℕ) (negative : Bool) (n : ℕ)
    → detect_base body ≡ (base, digits)
    → read_number base digits ≡ some (n, [])
    → n < ulong_mod
    → stoul_signed text (negative, body)
      ≡ some (if negative then (ulong_mod - n) % ulong_mod else n, length text)
unfolding stoul_signed
stoul_signed-of_number text body digits base negative n e r h =
    ap (stoul_digits text negative) e ∙ rw (stoul_digits, r) (in_range-whole text negative n h)

stoul_zero : stoul (print 10 0) ≡ some (0, length (print 10 0))
unfolding stoul print digit_value is_digit
stoul_zero = refl

stoul_hex_zero : stoul (b'0' ∷ b'x' ∷ print 16 0) ≡ some (0, length (b'0' ∷ b'x' ∷ print 16 0))
unfolding stoul print
stoul_hex_zero = refl

stoul_zero_x :
    (body : Text)
    → let text : Text = b'0' ∷ b'x' ∷ body in stoul text ≡ stoul_signed text (false, text)
unfolding stoul
stoul_zero_x body = refl

stoul_after_minus : (body : Text) → stoul (b'-' ∷ body) ≡ stoul_signed (b'-' ∷ body) (true, body)
unfolding stoul
stoul_after_minus body = refl

stoul_signed-to_string :
    (text : Text) (negative : Bool) (n : ℕ)
    → 0 < n
    → n < ulong_mod
    → stoul_signed text (negative, print 10 n)
      ≡ some (if negative then (ulong_mod - n) % ulong_mod else n, length text)
stoul_signed-to_string text negative n p h =
    let (d, rest, e, pos, lt) = print-StartsWithDigit 10 n (omega arith) p in
    stoul_signed-of_number text (print 10 n) (print 10 n) 10 negative n
      (rw e (detect_base-decimal d rest pos lt))
      (read_number-digits 10 n d (print 10 n) rest (omega arith) (omega arith) lt e
        (read_digits-print 10 n (omega arith) (omega arith)))
      h

skip_space-digit :
    (d : ℕ) (rest : Text) → d < 16 → skip_space (digit_char d ∷ rest) ≡ digit_char d ∷ rest
unfolding skip_space digit_char is_space
skip_space-digit d rest h = ground arith

sign-digit :
    (d : ℕ) (rest : Text) → d < 16 → sign (digit_char d ∷ rest) ≡ (false, digit_char d ∷ rest)
unfolding sign digit_char
sign-digit d rest h = ground arith

-- No white space and no sign stands before a digit.
stoul-digit :
    (text : Text) (d : ℕ) (rest : Text)
    → text ≡ digit_char d ∷ rest
    → d < 16
    → stoul text ≡ stoul_signed text (false, text)
unfolding stoul
stoul-digit text d rest e h = rw (e, skip_space-digit d rest h, sign-digit d rest h)

-- A decimal number that fits `unsigned long` is read back whole.
pub stoul-to_string : (n : ℕ) → n < ulong_mod → stoul (to_string n) ≡ some (n, length (to_string n))
unfolding to_string
stoul-to_string zero h = stoul_zero
stoul-to_string (suc m) h =
    let n = suc m in
    let (d, rest, e, pos, lt) = print-StartsWithDigit 10 n (omega arith) (omega arith) in
    stoul-digit (print 10 n) d rest e (omega arith)
    ∙ stoul_signed-to_string (print 10 n) false n (omega arith) h

-- So is `0x` with a hexadecimal number.
pub stoul-to_hex :
    (n : ℕ)
    → n < ulong_mod
    → stoul (b'0' ∷ b'x' ∷ to_hex n) ≡ some (n, length (b'0' ∷ b'x' ∷ to_hex n))
unfolding to_hex
stoul-to_hex zero h = stoul_hex_zero
stoul-to_hex (suc m) h =
    let n = suc m in
    let (d, rest, e, pos, lt) = print-StartsWithDigit 16 n (omega arith) (omega arith) in
    let text : Text = b'0' ∷ b'x' ∷ print 16 n in
    stoul_zero_x (print 16 n)
    ∙ stoul_signed-of_number text text (print 16 n) 16 false n (rw e (detect_base-hex d rest lt))
        (read_number-digits 16 n d (print 16 n) rest (omega arith) (omega arith) lt e
          (read_digits-print 16 n (omega arith) (omega arith)))
        h

-- A minus sign before a positive number gives its negation modulo 2^64.
pub stoul-minus :
    (n : ℕ)
    → 0 < n
    → n < ulong_mod
    → stoul (b'-' ∷ to_string n) ≡ some (ulong_mod - n, length (b'-' ∷ to_string n))
unfolding to_string
stoul-minus n p h =
    stoul_after_minus (print 10 n)
    ∙ stoul_signed-to_string (b'-' ∷ print 10 n) true n p h
    ∙ ap (λ v. some (v, length (b'-' ∷ print 10 n))) (omega arith)
