-- ===== src/Command/Printed.antt =====
-- Commands as a user types them, and what dm_openarm/src/mit_control_command.cpp makes of them.
use dmopenarm.Base.{
  ℕ, ◌-◌, ◌<◌, ◌^◌, ◌≡◌, refl, sym, ap, ◌∙◌, some, [], ◌∷◌, ◌++◌, arith, length, ok, append-nil,
}
use dmopenarm.Text.{Text, codes}
use dmopenarm.Text.Print.{to_string, to_hex}
use dmopenarm.Text.Roundtrip.{stoul-to_string, stoul-to_hex, stoul-minus}
use dmopenarm.Text.Tokens.{is_space, split_tokens}
use dmopenarm.Text.Tokens.Words.{
  IsWord, line_end, line_gap, line_word, split_tokens_iff, to_string-IsWord,
}
use dmopenarm.Double.{Double, IsNan}
use dmopenarm.Command.{move, command_of, parse_can_id, parse_mit_control_command}
use dmopenarm.Command.CanId.{parse_can_id_iff}
use dmopenarm.Command.Grammar.{IsDelta, says_move, parse_mit_control_command_iff}

-- Every 16-bit CAN ID is accepted in decimal and, after `0x`, in hexadecimal, as itself.
pub parse_can_id-printed :
    (n : ℕ)
    → n < 65536
    → (parse_can_id (to_string n) ≡ ok n) × (parse_can_id (b'0' ∷ b'x' ∷ to_hex n) ≡ ok n)
parse_can_id-printed n h = (
  (parse_can_id_iff (to_string n) n).1
      (record { read = stoul-to_string n (omega arith); fits = h }),
  (parse_can_id_iff (b'0' ∷ b'x' ∷ to_hex n) n).1
      (record { read = stoul-to_hex n (omega arith); fits = h }),
)

-- A negative number is accepted too, if its negation modulo 2^64 is a 16-bit number: a minus sign
-- before 2^64 - n is the CAN ID n.
pub parse_can_id-minus :
    (n : ℕ) → 0 < n → n < 65536 → parse_can_id (b'-' ∷ to_string (2 ^ 64 - n)) ≡ ok n
parse_can_id-minus n p h =
    let text : Text = b'-' ∷ to_string (2 ^ 64 - n) in
    (parse_can_id_iff text n).1 (record {
      read =
          stoul-minus (2 ^ 64 - n) (omega arith) (omega arith)
          ∙ ap (λ v. some (v, length text)) (omega arith);
      fits = h;
    })

IsWord-move : IsWord (codes "move")
unfolding codes is_space
IsWord-move = record { nonempty = λ e. cc; solid = (refl, (refl, (refl, (refl, tt)))) }

-- A `move` line with single spaces.
abbrev pub move_line : Text → Text → Text
move_line id delta = codes "move" ++ (32 ∷ id ++ (32 ∷ delta))

split_tokens-move_line :
    (id delta : Text)
    → IsWord id
    → IsWord delta
    → split_tokens (move_line id delta) ≡ codes "move" ∷ id ∷ delta ∷ []
unfolding is_space
split_tokens-move_line id delta i w =
    (split_tokens_iff (codes "move" ∷ id ∷ delta ∷ []) (move_line id delta)).1 (
      line_word (codes "move") (32 ∷ id ++ (32 ∷ delta)) refl IsWord-move refl (
        line_gap refl (
          line_word id (32 ∷ delta) refl i refl
            (line_gap refl (line_word delta [] (sym (append-nil delta)) w tt line_end)))))

module _ {D : Type 0} ⦃d : Double D⦄ where
  -- `move`, a 16-bit CAN ID in decimal and a word that `std::stod` reads whole as a number within
  -- the limit, with single spaces between them, give that move.
  pub parse-move_line :
      (n : ℕ) (delta : Text) (limit x : D)
      → n < 65536
      → IsWord delta
      → IsDelta limit delta x
      → parse_mit_control_command (move_line (to_string n) delta) limit ≡ ok (command_of move n x)
  parse-move_line n delta limit x h w dl =
      (parse_mit_control_command_iff (move_line (to_string n) delta) limit (command_of move n x)).1
        (says_move (to_string n) delta n x
          (split_tokens-move_line (to_string n) delta (to_string-IsWord n) w)
          (record { read = stoul-to_string n (omega arith); fits = h }) dl refl)

  -- The limit does not stop NaN: if `std::stod` reads NaN from a word, the move is accepted.
  pub parse-move_line-nan :
      (n : ℕ) (delta : Text) (limit x : D)
      → n < 65536
      → IsWord delta
      → d.stod delta ≡ some (x, length delta)
      → IsNan d x
      → parse_mit_control_command (move_line (to_string n) delta) limit ≡ ok (command_of move n x)
  parse-move_line-nan n delta limit x h w r nan =
      parse-move_line n delta limit x h w
        (record { read = r; within = rw nan.abs_nan (nan.lt_right limit) })
