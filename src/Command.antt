-- ===== src/Command.antt =====
-- dm_openarm/src/mit_control_command.cpp and dm_openarm/include/dm_openarm/mit_control_command.hpp: one line of text to
-- one command for the control loop.
pub mod CanId
mod Tests
pub mod Grammar
pub mod Printed
use dmopenarm.Base.{
  ℕ, ◌-◌, not, ◌||◌, none, some, List, [], ◌∷◌, ◌++◌, ltb, ◌==◌, if◌then◌else◌, length, get_or,
  Exception, invalid_argument, Result, ok, err,
}
use dmopenarm.Base.Outcome.{◌>>=◌, ◌>>◌, throw_if}
use dmopenarm.Text.{Text, codes, text_eq}
use dmopenarm.Text.Print.{to_string}
use dmopenarm.Text.Stoul.{stoul}
use dmopenarm.Text.Tokens.{split_tokens}
use dmopenarm.Double.{Double, zero_of}

pub data MitControlCommandKind : Type 0 where
  status move home_one home_all stop : MitControlCommandKind

pub record MitControlCommand (D : Type 0) : Type 0 where
  pub kind : MitControlCommandKind
  pub can_id : ℕ
  pub delta_rad : D

abbrev pub uint16_max : ℕ
uint16_max = 65535

-- The exception of `parse_can_id`.
abbrev pub invalid_can_id : Text → Exception
invalid_can_id text = invalid_argument (codes "invalid CAN ID: " ++ text)

-- The same function stands in dm_openarm/examples/set_zero_position.cpp.
unfoldable pub parse_can_id : Text → Result ℕ
parse_can_id text = elim (stoul text) [
  | none ↦ err (invalid_can_id text)
  | some (value, parsed) ↦
      if not (parsed == length text) || ltb uint16_max value
      then err (invalid_can_id text)
      else ok value
]

unfoldable pub require_arg_count : List Text → ℕ → Text → Result (Unit {0})
require_arg_count tokens expected command = throw_if (not (length tokens == expected)) (
    invalid_argument (
      command ++ (codes " command expects " ++ (to_string (expected - 1) ++ codes " argument(s)"))))

module _ {D : Type 0} ⦃d : Double D⦄ where
  abbrev pub command_of : MitControlCommandKind → ℕ → D → MitControlCommand D
  command_of kind can_id delta = record { kind = kind; can_id = can_id; delta_rad = delta }

  unfoldable pub parse_delta : Text → D → Result D
  parse_delta text max_delta_rad = elim (d.stod text) [
    | none ↦ err (invalid_argument (codes "invalid delta_rad: " ++ text))
    | some (value, parsed) ↦
        if not (parsed == length text)
        then err (invalid_argument (codes "invalid delta_rad: " ++ text))
        else if d.lt max_delta_rad (d.abs value)
        then err (invalid_argument (codes "move delta exceeds limit"))
        else ok value
  ]

  parse_move : List Text → D → Result (MitControlCommand D)
  parse_move tokens max_delta_rad = do
    require_arg_count tokens 3 (codes "move")
    can_id ← parse_can_id (get_or tokens 1 [])
    delta ← parse_delta (get_or tokens 2 []) max_delta_rad
    ok (command_of move can_id delta)

  parse_home : List Text → Result (MitControlCommand D)
  parse_home tokens = do
    require_arg_count tokens 2 (codes "home")
    if text_eq (get_or tokens 1 []) (codes "all")
        then ok (command_of home_all 0 (zero_of d))
        else (parse_can_id (get_or tokens 1 []) >>= λ can_id.
            ok (command_of home_one can_id (zero_of d)))

  parse_plain : MitControlCommandKind → Text → List Text → Result (MitControlCommand D)
  parse_plain kind word tokens = do
    require_arg_count tokens 1 word
    ok (command_of kind 0 (zero_of d))

  -- The body of `parse_mit_control_command` once the line is split; `tokens` is not empty.
  parse_tokens : List Text → D → Result (MitControlCommand D)
  unfolding parse_move parse_home parse_plain
  parse_tokens tokens max_delta_rad =
      let command = get_or tokens 0 [] in
      if text_eq command (codes "status")
      then parse_plain status (codes "status") tokens
      else if text_eq command (codes "move")
      then parse_move tokens max_delta_rad
      else if text_eq command (codes "home")
      then parse_home tokens
      else if text_eq command (codes "stop")
      then parse_plain stop (codes "stop") tokens
      else err (invalid_argument (codes "unknown command: " ++ command))

  parse_split : List Text → D → Result (MitControlCommand D)
  unfolding parse_tokens
  parse_split [] max_delta_rad = err (invalid_argument (codes "empty command"))
  parse_split (token ∷ rest) max_delta_rad = parse_tokens (token ∷ rest) max_delta_rad

  unfoldable pub parse_mit_control_command : Text → D → Result (MitControlCommand D)
  unfolding parse_split
  parse_mit_control_command line max_delta_rad = parse_split (split_tokens line) max_delta_rad
