-- ===== src/Text/Tokens/Words.antt =====
-- What a line of words separated by white space is, and that `split_tokens` finds its words.
use dmopenarm.Base.{
  ℕ, zero, suc, ◌%◌, ◌/◌, ◌<◌, ◌≤◌, ◌≡◌, refl, ap, ◌∙◌, subst, ◌≢◌, ◌↔◌, inl, inr, true, false,
  List, [], ◌∷◌, ◌++◌, append-nil, append_assoc, arith, Bool-cases, All, All-append, ltb, ltb→lt,
}
use native.Mathlib.Nat.{mod-lt}
use dmopenarm.Text.{Text}
use dmopenarm.Text.Digits.{digit_char}
use dmopenarm.Text.Print.{print_before, print, to_string}
use dmopenarm.Text.Tokens.{is_space, push_token, tokens_from, split_tokens}

abbrev pub NoSpace : Text → Type 0
NoSpace = All (λ c. is_space c ≡ false)

pub record IsWord (word : Text) : Type 0 where
  pub nonempty : word ≢ []
  pub solid : NoSpace word

-- The line is at its end, or white space stands there.
abbrev pub AtGap : Text → Type 0
AtGap [] = Unit
AtGap (c ∷ _) = is_space c ≡ true

-- The words of a line, in order.
pub data IsLine : List Text → Text → Type 0 where
  line_end : IsLine [] []
  line_gap :
      {words : List Text} {c : ℕ} {line : Text}
      → is_space c ≡ true
      → IsLine words line
      → IsLine words (c ∷ line)
  line_word :
      (word : Text) {words : List Text} {line : Text} (rest : Text)
      → line ≡ word ++ rest
      → IsWord word
      → AtGap rest
      → IsLine words rest
      → IsLine (word ∷ words) line

tokens_from-append :
    (token word rest : Text)
    → NoSpace word
    → tokens_from token (word ++ rest) ≡ tokens_from (token ++ word) rest
unfolding tokens_from
tokens_from-append token [] rest s = rw append-nil
tokens_from-append token (c ∷ word) rest (s, ss) = rw s (
    tokens_from-append (token ++ (c ∷ [])) word rest ss
    ∙ ap (λ t. tokens_from t rest) (append_assoc token (c ∷ []) word))

push_token-word :
    (word : Text) (tokens : List Text) → word ≢ [] → push_token word tokens ≡ word ∷ tokens
unfolding push_token
push_token-word [] tokens h = absurd (h refl)
push_token-word (c ∷ word) tokens h = refl

tokens_from-AtGap :
    (word rest : Text) → word ≢ [] → AtGap rest → tokens_from word rest ≡ word ∷ tokens_from [] rest
unfolding tokens_from push_token
tokens_from-AtGap word [] h g = push_token-word word [] h
tokens_from-AtGap word (c ∷ rest) h g = rw g (push_token-word word (tokens_from [] rest) h)

split_tokens-of_IsLine :
    (words : List Text) (line : Text) → IsLine words line → tokens_from [] line ≡ words
unfolding tokens_from push_token
split_tokens-of_IsLine _ _ line_end = refl
split_tokens-of_IsLine _ _ (line_gap {words} {c} {line} s l) =
    rw s (split_tokens-of_IsLine words line l)
split_tokens-of_IsLine _ _ (line_word word {words} {line} rest e w g l) = rw e (
    tokens_from-append [] word rest w.solid
    ∙ tokens_from-AtGap word rest w.nonempty g
    ∙ ap (λ ts. word ∷ ts) (split_tokens-of_IsLine words rest l))

push_gap :
    (token : Text) (c : ℕ) (line : Text) {words : List Text}
    → NoSpace token
    → is_space c ≡ true
    → IsLine words line
    → IsLine (push_token token words) (token ++ c ∷ line)
unfolding push_token
push_gap [] c line s g l = line_gap g l
push_gap (t ∷ token) c line s g l =
    line_word (t ∷ token) (c ∷ line) refl (record { nonempty = λ e. cc; solid = s }) g
      (line_gap g l)

IsLine-tokens_from :
    (token line : Text) → NoSpace token → IsLine (tokens_from token line) (token ++ line)
unfolding tokens_from push_token
IsLine-tokens_from [] [] s = line_end
IsLine-tokens_from (t ∷ token) [] s =
    line_word (t ∷ token) [] refl (record { nonempty = λ e. cc; solid = s }) tt line_end
IsLine-tokens_from token (c ∷ line) s = elim (Bool-cases (is_space c)) [
  | inl gap ↦ rw gap (push_gap token c line s gap (IsLine-tokens_from [] line tt))
  | inr more ↦ rw more (
      subst (IsLine (tokens_from (token ++ (c ∷ [])) line)) (append_assoc token (c ∷ []) line)
        (IsLine-tokens_from (token ++ (c ∷ [])) line (All-append _ token (c ∷ []) s (more, tt))))
]

-- A line splits into exactly its words, however much white space stands between and around them.
pub split_tokens_iff :
    (words : List Text) (line : Text) → (split_tokens line ≡ words) ↔ IsLine words line
unfolding split_tokens
split_tokens_iff words line = (
  λ e. subst (λ ws. IsLine ws line) e (IsLine-tokens_from [] line tt),
  split_tokens-of_IsLine words line,
)

digit_char-solid : (d : ℕ) → d < 16 → is_space (digit_char d) ≡ false
unfolding is_space digit_char
digit_char-solid d h = ground arith

print_before-NoSpace :
    (base fuel n : ℕ) (tail : Text)
    → 2 ≤ base
    → base ≤ 16
    → NoSpace tail
    → NoSpace (print_before base fuel n tail)
unfolding print_before
print_before-NoSpace base zero n tail b w s = s
print_before-NoSpace base (suc fuel) n tail b w s = elim (Bool-cases (ltb n base)) [
  | inl small ↦
      let lt : n < base = ltb→lt n base small in rw small (digit_char-solid n (omega arith), s)
  | inr large ↦
      let lt : n % base < base = mod-lt n (omega arith) in
      rw large (
        print_before-NoSpace base fuel (n / base) (digit_char (n % base) ∷ tail) b w
          (digit_char-solid (n % base) (omega arith), s))
]

print_before-nonempty :
    (base fuel n : ℕ) (t : ℕ) (tail : Text) → print_before base fuel n (t ∷ tail) ≢ []
unfolding print_before
print_before-nonempty base zero n t tail = λ e. cc
print_before-nonempty base (suc fuel) n t tail = elim (Bool-cases (ltb n base)) [
  | inl small ↦ rw small (λ e. cc)
  | inr large ↦
      rw large (print_before-nonempty base fuel (n / base) (digit_char (n % base)) (t ∷ tail))
]

print-nonempty : (base n : ℕ) → print base n ≢ []
unfolding print print_before
print-nonempty base n = elim (Bool-cases (ltb n base)) [
  | inl small ↦ rw small (λ e. cc)
  | inr large ↦ rw large (print_before-nonempty base n (n / base) (digit_char (n % base)) [])
]

-- A printed number is one word.
pub to_string-IsWord : (n : ℕ) → IsWord (to_string n)
unfolding to_string print
to_string-IsWord n = record {
  nonempty = print-nonempty 10 n;
  solid = print_before-NoSpace 10 (suc n) n [] (omega arith) (omega arith) tt;
}
