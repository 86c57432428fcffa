-- ===== src/Program.antt =====
-- What the programs under dm_openarm/examples share: an arm that is disabled when it goes out of
-- scope, lines of output, and the exit code that the `catch` of `main` decides.
pub mod Enable
pub mod Check
pub mod Hold
pub mod SetZero
pub mod Live
pub mod Running
pub mod Exits
pub mod Success
pub mod RuntimeOnly
pub mod Zeroing
pub mod ZeroSuccess
mod Tests
use dmopenarm.Base.{ℕ, Bool, Option, none, some, List, [], ◌∷◌, ◌++◌, Exception, Result, ok, err}
use dmopenarm.Base.Outcome.{what}
use dmopenarm.Base.Action.{Action, continue, ◌>>=◌, ◌>>◌}
use dmopenarm.Text.{Text, codes}
use dmopenarm.Double.{Double}
use dmopenarm.Types.{ArmConfig, MotorState}
use dmopenarm.Yaml.{Yaml}
use dmopenarm.Loader.{load_arm_config}
use dmopenarm.Sdk.{Sdk}
use dmopenarm.Arm
use dmopenarm.Arm.{Arm}
use dmopenarm.Arm.Methods.{destroy}

-- A line of standard output, the two that show a state, the second behind some words, and one of
-- standard error.
pub data Line (D : Type 0) : Type 0 where
  says : Text → Line D
  reports : MotorState D → Line D
  shows : Text → MotorState D → Line D
  complains : Text → Line D

pub record Program (D C : Type 0) : Type 0 where
  pub arm : Arm C
  pub output : List (Line D)

-- What a program leaves: its exit code, its arm if it made one, and what it wrote.
pub record Exit (D C : Type 0) : Type 0 where
  pub code : ℕ
  pub arm : Option (Arm C)
  pub output : List (Line D)

module _ {D : Type 0} where
  -- `print_states`.
  unfoldable pub state_lines : List (MotorState D) → List (Line D)
  state_lines [] = []
  state_lines (s ∷ states) = reports s ∷ state_lines states

  abbrev pub error_line : Exception → Line D
  error_line e = complains (codes "Error: " ++ what e)

module _ {D C : Type 0} where
  abbrev pub write : List (Line D) → Action (Program D C) (Unit {0})
  write lines p = (ok tt, record p { output = p.output ++ lines })

  abbrev pub say : Text → Action (Program D C) (Unit {0})
  say text = write (says text ∷ [])

  abbrev pub on_arm : {A : Type 0} → Action (Arm C) A → Action (Program D C) A
  on_arm act p = let (r, a) = act p.arm in (r, record p { arm = a })

  -- `arm.disable();`
  abbrev pub disable : Action (Program D C) (Unit {0})
  disable p = (ok tt, record p { arm = Arm.disable p.arm })

  -- The end of the `try`: the destructor of the arm, and the `catch`.
  abbrev pub left : Result (Unit {0}) × Program D C → Exit D C
  left (ok _, p) = record { code = 0; arm = some (destroy p.arm); output = p.output }
  left (err e, p) = record {
    code = 1;
    arm = some (destroy p.arm);
    output = p.output ++ (error_line e ∷ []);
  }

  -- `main` from the configuration on, with what it does once the arm is made.
  unfoldable pub configured :
      (ArmConfig → Action (Program D C) (Unit {0})) → Result ArmConfig → Exit D C
  configured body (ok config) = left (body config (record { arm = Arm.make config; output = [] }))
  configured body (err e) = record { code = 1; arm = none; output = error_line e ∷ [] }

  unfoldable pub run_main :
      {N : Type 0} → Yaml N → Text → (ArmConfig → Action (Program D C) (Unit {0})) → Exit D C
  unfolding configured
  run_main y path body = configured body (load_arm_config y path)

module _ {D F C H : Type 0} ⦃d : Double D⦄ (k : Sdk D F C H) where
  abbrev pub connect : Action (Program D C) (Unit {0})
  connect = on_arm (Arm.connect k)

  abbrev pub send_zero : Action (Program D C) (Unit {0})
  send_zero = on_arm (Arm.send_zero_mit_all k)

  abbrev pub set_zero : ℕ → Bool → Action (Program D C) (Unit {0})
  set_zero can_id persist = on_arm (Arm.set_zero k can_id persist)

  abbrev pub read_states : Action (Program D C) (List (MotorState D))
  read_states p = (Arm.states k p.arm, p)

  abbrev pub sleep : ℕ → Action (Program D C) (Unit {0})
  sleep ms = on_arm (Arm.sleep k ms)

-- The path that the program is given, or the one it falls back to; `argv` begins with its own name.
unfoldable pub config_path : List Text → Text
config_path (program ∷ path ∷ rest) = path
config_path (program ∷ []) = codes "../config/arm_5dof.yaml"
config_path [] = codes "../config/arm_5dof.yaml"
