-- ===== src/Program/Hold.antt =====
-- dm_openarm/examples/hold_position.cpp. The interrupt that clears `running` comes after some
-- rounds. The milliseconds that are left of the period of each, when its work is done, are an argument.
use dmopenarm.Base.{ℕ, List, [], ◌∷◌, ◌++◌, map}
use dmopenarm.Text.Print.{to_string}
use dmopenarm.Base.Action.{Action, pure, ◌>>=◌, ◌>>◌}
use dmopenarm.Text.{Text, codes}
use dmopenarm.Double.{Double, zero_of}
use dmopenarm.Types.{ArmConfig, MitCommand, MotorState}
use dmopenarm.Yaml.{Yaml}
use dmopenarm.Sdk.{Sdk}
use dmopenarm.Arm
use dmopenarm.Program as Shared
use dmopenarm.Program.{
  Program, Exit, complains, write, state_lines, connect, send_zero, on_arm, read_states, sleep,
  disable, run_main,
}

-- The program's own copy of this function.
abbrev pub config_path : List Text → Text
config_path = Shared.config_path

module _ {D : Type 0} ⦃d : Double D⦄ where
  -- The command that holds a motor where it is.
  abbrev pub hold_command : MotorState D → MitCommand D
  hold_command state = record {
    kp = d.literal 2 1;
    kd = d.literal 5 10;
    q = state.position;
    dq = zero_of d;
    tau = zero_of d;
  }

  unfoldable pub hold_commands : List (MotorState D) → List (MitCommand D)
  hold_commands states = map hold_command states

module _ {D C : Type 0} where
  -- It clears `running`, which ends the loop, and says so on standard error, which has no line before.
  abbrev pub signal_handler : ℕ → Action (Program D C) (Unit {0})
  signal_handler signum =
      write
        (complains (codes "\nInterrupt signal (" ++ (to_string signum ++ codes ") received.")) ∷ [])

module _ {D F C H : Type 0} ⦃d : Double D⦄ (k : Sdk D F C H) where
  unfoldable pub hold_round : List (MitCommand D) → ℕ → Action (Program D C) (Unit {0})
  hold_round commands left = do
    on_arm (Arm.send_mit_all k commands)
    states ← read_states k
    write (state_lines states)
    sleep k left

  -- The loop, whose flag is clear after these rounds.
  unfoldable pub hold_rounds : List ℕ → List (MitCommand D) → Action (Program D C) (Unit {0})
  hold_rounds [] commands = pure tt
  hold_rounds (left ∷ rounds) commands = do hold_round commands left; hold_rounds rounds commands

  unfoldable pub hold_body : List ℕ → ArmConfig → Action (Program D C) (Unit {0})
  hold_body rounds config = do
    connect k
    send_zero k
    sleep k config.loop_period
    states ← read_states k
    hold_rounds rounds (hold_commands states)
    signal_handler 2
    disable

  unfoldable pub hold_main : {N : Type 0} → Yaml N → List Text → List ℕ → Exit D C
  unfolding hold_body
  hold_main y argv rounds = run_main y (config_path argv) (hold_body rounds)
