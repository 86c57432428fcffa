-- ===== src/Command/Tests.antt =====
-- Runs of the command parser, those of tests/test_mit_control_command.cpp among them, and each
-- property of the parser at a concrete input.
use dmopenarm.Base.{
  ◌^◌, ◌-◌, ◌≡◌, refl, false, ◌↔◌, some, length, arith, ok, err, invalid_argument, [], ◌∷◌,
}
use dmopenarm.Base.Int.{pos, negsuc}
use dmopenarm.Text.{Text, codes}
use dmopenarm.Text.Print.{to_string}
use dmopenarm.Text.Stoul.{stoul}
use dmopenarm.Text.Tokens.{split_tokens, is_space}
use dmopenarm.Text.Tokens.Words.{IsWord, IsLine, split_tokens_iff}
use dmopenarm.Double.{IsNan}
use dmopenarm.Double.Fixed.{Fixed, nan, micro, milli, fixed, stod, lt, le, abs}
use dmopenarm.Command.{
  status, move, home_one, home_all, stop, command_of, parse_can_id, parse_delta, require_arg_count,
  parse_mit_control_command,
}
use dmopenarm.Command.Printed.{parse_can_id-minus, parse-move_line, parse-move_line-nan, move_line}
use dmopenarm.Command.Grammar.{IsDelta, Accepts, parse_mit_control_command_iff}

-- 0.10, the default limit.
abbrev tenth : Fixed
tenth = milli (pos 100)

parse_runs :
    (parse_mit_control_command (codes "status") tenth ≡ ok (command_of status 0 (milli (pos 0))))
    × (parse_mit_control_command (codes "move 0x01 0.08") tenth
        ≡ ok (command_of move 1 (milli (pos 80))))
    × (parse_mit_control_command (codes " move 2  -0.1 ") tenth
        ≡ ok (command_of move 2 (milli (negsuc 99))))
    × (parse_mit_control_command (codes "home 0x05") tenth
        ≡ ok (command_of home_one 5 (milli (pos 0))))
    × (parse_mit_control_command (codes "home all") tenth
        ≡ ok (command_of home_all 0 (milli (pos 0))))
    × (parse_mit_control_command (codes "stop") tenth ≡ ok (command_of stop 0 (milli (pos 0))))
    × (parse_mit_control_command (codes "move 1 nan") tenth ≡ ok (command_of move 1 nan))
unfolding parse_mit_control_command parse_can_id parse_delta require_arg_count split_tokens codes
    stoul stod lt abs
parse_runs = (refl, refl, refl, refl, refl, refl, refl)

parse_refusals :
    (parse_mit_control_command [] tenth ≡ err (invalid_argument (codes "empty command")))
    × (parse_mit_control_command (codes "move 0x01 0.11") tenth
        ≡ err (invalid_argument (codes "move delta exceeds limit")))
    × (parse_mit_control_command (codes "move 0x10000 0") tenth
        ≡ err (invalid_argument (codes "invalid CAN ID: 0x10000")))
    × (parse_mit_control_command (codes "move 1") tenth
        ≡ err (invalid_argument (codes "move command expects 2 argument(s)")))
    × (parse_mit_control_command (codes "spin 1") tenth
        ≡ err (invalid_argument (codes "unknown command: spin")))
unfolding parse_mit_control_command parse_can_id parse_delta require_arg_count split_tokens codes
    stoul stod lt abs to_string
parse_refusals = (refl, refl, refl, refl, refl)

nan-IsNan : IsNan fixed nan
unfolding lt le abs
nan-IsNan = record { lt_left = λ y. refl; lt_right = lt_nan; le_left = λ y. refl; abs_nan = refl }
  where
    lt_nan : (y : Fixed) → lt y nan ≡ false
    lt_nan nan = refl
    lt_nan (micro a) = refl

abbrev padded : Text
padded = codes "  status "

split_tokens_iff_example :
    (split_tokens padded ≡ codes "status" ∷ []) ↔ IsLine (codes "status" ∷ []) padded
split_tokens_iff_example = split_tokens_iff (codes "status" ∷ []) padded

parse_mit_control_command_iff_example :
    (parse_mit_control_command (codes "move 1 0.08") tenth
      ≡ ok (command_of move 1 (milli (pos 80))))
    ↔ Accepts tenth (split_tokens (codes "move 1 0.08")) (command_of move 1 (milli (pos 80)))
parse_mit_control_command_iff_example =
    parse_mit_control_command_iff (codes "move 1 0.08") tenth (command_of move 1 (milli (pos 80)))

parse_can_id-minus_example : parse_can_id (b'-' ∷ to_string (2 ^ 64 - 1)) ≡ ok 1
parse_can_id-minus_example = parse_can_id-minus 1 (omega arith) (omega arith)

eighty-IsWord : IsWord (codes "0.08")
unfolding codes is_space
eighty-IsWord = record { nonempty = λ e. cc; solid = (refl, (refl, (refl, (refl, tt)))) }

eighty-IsDelta : IsDelta tenth (codes "0.08") (milli (pos 80))
unfolding codes stod lt abs
eighty-IsDelta = record { read = refl; within = refl }

parse-move_line_example :
    parse_mit_control_command (move_line (to_string 17) (codes "0.08")) tenth
    ≡ ok (command_of move 17 (milli (pos 80)))
parse-move_line_example =
    parse-move_line 17 (codes "0.08") tenth (milli (pos 80)) (omega arith) eighty-IsWord
      eighty-IsDelta

nan-IsWord : IsWord (codes "nan")
unfolding codes is_space
nan-IsWord = record { nonempty = λ e. cc; solid = (refl, (refl, (refl, tt))) }

stod_nan : stod (codes "nan") ≡ some (nan, length (codes "nan"))
unfolding codes stod
stod_nan = refl

parse-move_line-nan_example :
    parse_mit_control_command (move_line (to_string 17) (codes "nan")) tenth
    ≡ ok (command_of move 17 nan)
parse-move_line-nan_example =
    parse-move_line-nan 17 (codes "nan") tenth nan (omega arith) nan-IsWord stod_nan nan-IsNan
