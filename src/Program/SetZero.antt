-- ===== src/Program/SetZero.antt =====
-- dm_openarm/examples/set_zero_position.cpp.
use dmopenarm.Base.{
  ℕ, Bool, true, false, Option, none, some, List, [], ◌∷◌, ◌++◌, map, ◌==◌, if◌then◌else◌, Result,
  ok, err,
}
use dmopenarm.Base.Action.{Action, pure, ◌>>=◌, ◌>>◌}
use dmopenarm.Text.{Text, codes, text_eq}
use dmopenarm.Text.Print.{to_string}
use dmopenarm.Double.{Double}
use dmopenarm.Types.{ArmConfig, MotorState}
use dmopenarm.Yaml.{Yaml}
use dmopenarm.Command
use dmopenarm.Sdk.{Sdk}
use dmopenarm.Program.{
  Line, says, shows, Program, Exit, write, say, connect, send_zero, set_zero, read_states, sleep,
  disable, run_main,
}

module _ {D : Type 0} where
  -- `print_usage`.
  unfoldable pub usage : Text → List (Line D)
  usage program =
      says (codes "Usage:")
      ∷ says (codes "  " ++ (program ++ codes " <config.yaml> all [--runtime-only]"))
      ∷ says (codes "  " ++ (program ++ codes " <config.yaml> <can_id> [--runtime-only]"))
      ∷ []

  unfoldable pub find_state : List (MotorState D) → ℕ → Option (MotorState D)
  find_state [] can_id = none
  find_state (s ∷ states) can_id = if s.can_id == can_id then some s else find_state states can_id

  -- `print_target_state`: nothing for a motor that has no state.
  unfoldable pub target_lines : Text → List (MotorState D) → ℕ → List (Line D)
  target_lines words states can_id = elim (find_state states can_id) [
    | none ↦ []
    | some s ↦ shows words s ∷ []
  ]

  unfoldable pub after_lines : List (MotorState D) → List ℕ → List (Line D)
  unfolding target_lines
  after_lines states [] = []
  after_lines states (can_id ∷ ids) =
      target_lines (codes "After set zero:") states can_id ++ after_lines states ids

-- The program has its own copy of this function, word for word.
abbrev pub parse_can_id : Text → Result ℕ
parse_can_id = Command.parse_can_id

-- The motors that the second argument names.
unfoldable pub target_ids : Text → ArmConfig → Result (List ℕ)
target_ids target config =
    if text_eq target (codes "all") then ok (map (λ m. m.can_id) config.motors) else one
  where
    one : Result (List ℕ)
    one = elim (parse_can_id target) [ ok can_id ↦ ok (can_id ∷ []) | err e ↦ err e ]

abbrev pub saved_words : Bool → Text
saved_words true = codes "Saved zero position to flash"
saved_words false = codes "Runtime-only zero position; not saved to flash"

module _ {D F C H : Type 0} ⦃d : Double D⦄ (k : Sdk D F C H) where
  -- One round of the loop over the targets.
  unfoldable pub zero_target : Bool → List (MotorState D) → ℕ → Action (Program D C) (Unit {0})
  zero_target persist before can_id = do
    say (codes "Target motor CAN ID: " ++ to_string can_id)
    write (target_lines (codes "Before set zero:") before can_id)
    say (codes "Sending set zero command")
    set_zero k can_id persist
    say (codes "Sent set zero command")
    say (saved_words persist)

  unfoldable pub zero_targets :
      Bool → List (MotorState D) → List ℕ → Action (Program D C) (Unit {0})
  zero_targets persist before [] = pure tt
  zero_targets persist before (can_id ∷ ids) = do
    zero_target persist before can_id
    zero_targets persist before ids

  unfoldable pub zero_body : Text → Bool → ArmConfig → Action (Program D C) (Unit {0})
  zero_body target persist config = do
    connect k
    send_zero k
    sleep k config.loop_period
    before ← read_states k
    ids ← λ p. (target_ids target config, p)
    zero_targets persist before ids
    send_zero k
    sleep k config.loop_period
    states ← read_states k
    write (after_lines states ids)
    disable

  abbrev pub usage_exit : Text → Exit D C
  usage_exit program = record { code = 1; arm = none; output = usage program }

  -- `main` with its arguments, which begin with the name of the program.
  unfoldable pub zero_main : {N : Type 0} → Yaml N → List Text → Exit D C
  unfolding zero_body
  zero_main y [] = usage_exit []
  zero_main y (program ∷ []) = usage_exit program
  zero_main y (program ∷ path ∷ []) = usage_exit program
  zero_main y (program ∷ path ∷ target ∷ []) = run_main y path (zero_body target true)
  zero_main y (program ∷ path ∷ target ∷ option ∷ []) =
      if text_eq option (codes "--runtime-only")
      then run_main y path (zero_body target false)
      else usage_exit program
  zero_main y (program ∷ path ∷ target ∷ option ∷ more ∷ rest) = usage_exit program
