-- ===== src/Text/Print.antt =====
-- What the code uses of `std::to_string` and of `<< std::hex`: an unsigned number in base 10 or 16,
-- with no leading zeros.
use dmopenarm.Base.{ℕ, zero, suc, ◌/◌, ◌%◌, List, [], ◌∷◌, ltb, if◌then◌else◌}
use dmopenarm.Text.Digits.{digit_char}

-- The digits of `n` in front of `tail`. A number has fewer digits than `suc n`, the fuel that
-- `print` gives.
unfoldable pub print_before : ℕ → ℕ → ℕ → List ℕ → List ℕ
print_before base zero n tail = tail
print_before base (suc fuel) n tail =
    let more = print_before base fuel (n / base) (digit_char (n % base) ∷ tail) in
    if ltb n base then digit_char n ∷ tail else more

unfoldable pub print : ℕ → ℕ → List ℕ
unfolding print_before digit_char
print base n = print_before base (suc n) n []

-- `std::to_string(n)`.
unfoldable pub to_string : ℕ → List ℕ
unfolding print
to_string n = print 10 n

-- `<< std::hex << n`.
unfoldable pub to_hex : ℕ → List ℕ
unfolding print
to_hex n = print 16 n
