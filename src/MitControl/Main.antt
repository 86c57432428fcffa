-- ===== src/MitControl/Main.antt =====
-- `main` of dm_openarm/examples/arm_mit_control.cpp. The interrupt, if no `stop` comes before, follows the
-- last of the rounds whose reads are given.
use dmopenarm.Base.{
  if◌then◌else◌, ℕ, false, Option, none, some, List, [], ◌∷◌, ◌++◌, Exception, Result, ok, err,
}
use dmopenarm.Base.Outcome.{what}
use dmopenarm.Text.{Text, codes}
use dmopenarm.Double.{Double}
use dmopenarm.Types.{ArmConfig, MotorState}
use dmopenarm.Yaml.{Yaml}
use dmopenarm.Loader.{load_arm_config}
use dmopenarm.Sdk.{Sdk}
use dmopenarm.Arm
use dmopenarm.Arm.{Arm}
use dmopenarm.Arm.Methods.{destroy}
use dmopenarm.MitControl
use dmopenarm.MitControl.{
  Output, usage, listening, failed, MitControl, default_kp, default_kd, max_target_velocity,
  begin_arm, begin_at, run,
}
use dmopenarm.MitControl.Fifo.{Posix, FifoReader, lines_of, open_fifo, close_fifo}

abbrev pub command_fifo : Text
command_fifo = codes "/tmp/dm_openarm_mit_control.cmd"

abbrev pub signal_handler : {D C : Type 0} → ℕ → MitControl D C → MitControl D C
signal_handler signum s = record s {
  running = false;
  output = s.output ++ (MitControl.interrupted signum ∷ []);
}

-- What the program leaves.
pub record Ended (D C S : Type 0) : Type 0 where
  pub code : ℕ
  pub arm : Option (Arm C)
  pub output : List (Output D)
  pub system : S

module _ {D F C H S : Type 0} ⦃d : Double D⦄ (k : Sdk D F C H) (os : Posix S) where
  abbrev pub failure : Exception → Output D
  failure e = failed (codes "Error: " ++ what e)

  abbrev pub closed : Arm C → Option (Arm C)
  closed arm = some (destroy arm)

  -- The end of the loop and of `main`, with the destructors of the reader and of the arm.
  unfoldable pub after_loop : FifoReader → S → Result (Unit {0}) × MitControl D C → Ended D C S
  after_loop fifo system (ok _, s) = record {
    code = 0;
    arm = closed (Arm.disable s.arm);
    output = s.output;
    system = close_fifo os fifo system;
  }
  after_loop fifo system (err e, s) = record {
    code = 1;
    arm = closed s.arm;
    output = s.output ++ (failure e ∷ []);
    system = close_fifo os fifo system;
  }

  -- The loop is left: by the interrupt, where neither a `stop` nor an exception left it.
  abbrev pub interrupted : Result (Unit {0}) × MitControl D C → Result (Unit {0}) × MitControl D C
  interrupted (ok _, s) = (ok tt, if s.running then signal_handler 2 s else s)
  interrupted (err e, s) = (err e, s)

  -- From the reader on.
  unfoldable pub with_fifo :
      List (List Text × ℕ) → MitControl D C → Result FifoReader × S → Ended D C S
  unfolding after_loop
  with_fifo rounds s (ok fifo, system) =
      let told = listening command_fifo default_kp default_kd max_target_velocity in
      after_loop fifo system
        (interrupted (run k (lines_of rounds fifo) (record s { output = s.output ++ (told ∷ []) })))
  with_fifo rounds s (err e, system) = record {
    code = 1;
    arm = closed s.arm;
    output = failure e ∷ [];
    system = system;
  }

  -- From the first states on.
  unfoldable pub with_states :
      List (List Text × ℕ) → S → Result (List (MotorState D)) × Arm C → Ended D C S
  unfolding begin_at with_fifo
  with_states rounds system (r, arm) = elim (begin_at k (r, arm)) [
    | ok s ↦ with_fifo rounds s (open_fifo os command_fifo system)
    | err e ↦ record { code = 1; arm = closed arm; output = failure e ∷ []; system = system }
  ]

  unfoldable pub with_config : List (List Text × ℕ) → S → Result ArmConfig → Ended D C S
  unfolding with_states
  with_config rounds system (ok config) =
      with_states rounds system (begin_arm k config (Arm.make config))
  with_config rounds system (err e) = record {
    code = 1;
    arm = none;
    output = failure e ∷ [];
    system = system;
  }

  abbrev misused : Text → S → Ended D C S
  misused program system = record {
    code = 1;
    arm = none;
    output = usage program ∷ [];
    system = system;
  }

  -- `main`, where `argv` begins with the name of the program.
  unfoldable pub control_main :
      {N : Type 0} → Yaml N → List Text → List (List Text × ℕ) → S → Ended D C S
  unfolding with_config
  control_main y [] rounds system = misused [] system
  control_main y (program ∷ []) rounds system = misused program system
  control_main y (program ∷ path ∷ []) rounds system =
      with_config rounds system (load_arm_config y path)
  control_main y (program ∷ path ∷ more ∷ rest) rounds system = misused program system
