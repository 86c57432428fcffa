-- ===== src/Text/Reading.antt =====
-- The digits that `print` prints are those that `read_digits` reads.
use dmopenarm.Base.{
  ℕ, zero, suc, ◌+◌, ◌*◌, ◌/◌, ◌%◌, ◌≤◌, ◌<◌, ◌≡◌, refl, ap, ◌∙◌, inl, inr, [], ◌∷◌, arith, ltb,
  Bool-cases, ltb→lt,
}
use native.Mathlib.Nat.{mod-lt, div-add-mod', div-lt_self}
use dmopenarm.Text.{Text}
use dmopenarm.Text.Digits.{digit_char, digit_value-digit_char}
use dmopenarm.Text.Print.{print_before, print}
use dmopenarm.Text.Stoul.{read_digits}

read_digits-step :
    (base acc d : ℕ) (tail : Text)
    → d < base
    → base ≤ 36
    → read_digits base acc (digit_char d ∷ tail) ≡ read_digits base (acc * base + d) tail
unfolding read_digits
read_digits-step base acc d tail h w = rw (read_digits, digit_value-digit_char base d h w)

-- With enough fuel the printed digits are read back, whatever follows them.
pub read_digits-print_before :
    (base fuel n : ℕ) (tail : Text)
    → 2 ≤ base
    → base ≤ 36
    → n < fuel
    → read_digits base 0 (print_before base fuel n tail) ≡ read_digits base n tail
unfolding print_before
read_digits-print_before base zero n tail b w h = absurd (omega arith)
read_digits-print_before base (suc fuel) n tail b w h = elim (Bool-cases (ltb n base)) [
  | inl small ↦ rw small (
      read_digits-step base 0 n tail (ltb→lt n base small) w
      ∙ ap (λ v. read_digits base v tail) (omega arith))
  | inr large ↦
      let big : base ≤ n = ground arith in
      let shrinks : n / base < n = div-lt_self (omega arith) (omega arith) in
      rw large (
        read_digits-print_before base fuel (n / base) (digit_char (n % base) ∷ tail) b w
          (omega (arith, shrinks))
        ∙ read_digits-step base (n / base) (n % base) tail (mod-lt n (omega arith)) w
        ∙ ap (λ v. read_digits base v tail) (div-add-mod' n base))
]

-- A positive number starts with a digit that is not zero.
abbrev pub StartsWithDigit : ℕ → Text → Type 0
StartsWithDigit base text =
    (d : ℕ) × (rest : Text) × (text ≡ digit_char d ∷ rest) × (0 < d) × (d < base)

print_before-StartsWithDigit :
    (base fuel n : ℕ) (tail : Text)
    → 2 ≤ base
    → n < fuel
    → 0 < n
    → StartsWithDigit base (print_before base fuel n tail)
unfolding print_before
print_before-StartsWithDigit base zero n tail b h p = absurd (omega arith)
print_before-StartsWithDigit base (suc fuel) n tail b h p = elim (Bool-cases (ltb n base)) [
  | inl small ↦ rw small (n, tail, refl, p, ltb→lt n base small)
  | inr large ↦
      let big : base ≤ n = ground arith in
      let shrinks : n / base < n = div-lt_self (omega arith) (omega arith) in
      rw large (
        print_before-StartsWithDigit base fuel (n / base) (digit_char (n % base) ∷ tail) b
          (omega arith) (grind (arith, div-add-mod' n base, mod-lt n {m = base})))
]

pub read_digits-print :
    (base n : ℕ) → 2 ≤ base → base ≤ 36 → read_digits base 0 (print base n) ≡ (n, [])
unfolding print read_digits
read_digits-print base n b w = read_digits-print_before base (suc n) n [] b w (omega arith)

pub print-StartsWithDigit : (base n : ℕ) → 2 ≤ base → 0 < n → StartsWithDigit base (print base n)
unfolding print
print-StartsWithDigit base n b p = print_before-StartsWithDigit base (suc n) n [] b (omega arith) p
