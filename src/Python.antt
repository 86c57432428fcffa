-- ===== src/Python.antt =====
-- dm_openarm/src/python_bindings.cpp: what the module `_core` offers. A class is a record of its methods, a member
-- that `def_rw` or `def_ro` binds is an entry of a table with its name.
pub mod Attributes
pub mod Package
pub mod Disabling
mod Tests
use dmopenarm.Base.{ℕ, Bool, true, Option, none, some, List, [], ◌∷◌, Result}
use dmopenarm.Base.Action.{Action}
use dmopenarm.Text.{Text, codes}
use dmopenarm.Double.{Double, zero_of}
use dmopenarm.Types.{
  MotorModel, dm4310, dm8009, ControlMode, mit, MitCommand, MotorState, MotorConfig, ArmConfig,
}
use dmopenarm.Yaml.{Yaml}
use dmopenarm.Loader
use dmopenarm.Sdk.{Sdk}
use dmopenarm.Arm
use dmopenarm.Arm.{Arm}
use dmopenarm.Controller
use dmopenarm.Controller.{Controller}
use dmopenarm.Controller.Methods
use dmopenarm.Controller.Threads.{System, begin_start, begin_stop}

-- The argument that was given, or the one of `nb::arg(…) = …`.
abbrev pub given : {A : Type 0} → A → Option A → A
given default none = default
given default (some a) = a

-- The values of the enumerations.
abbrev pub motor_models : List (Text × MotorModel)
motor_models = (codes "DM4310", dm4310) ∷ (codes "DM8009", dm8009) ∷ []

abbrev pub control_modes : List (Text × ControlMode)
control_modes = (codes "MIT", mit) ∷ []

-- A member that may be written, and one that may only be read.
pub record Attribute (A V : Type 0) : Type 0 where
  pub name : Text
  pub read : A → V
  pub write : V → A → A

pub record Readable (A V : Type 0) : Type 0 where
  pub name : Text
  pub read : A → V

module _ {D : Type 0} ⦃d : Double D⦄ where
  -- The constructor of `MitCommand`, with its five default arguments.
  abbrev pub mit_command_init : Option D → Option D → Option D → Option D → Option D → MitCommand D
  mit_command_init kp kd q dq tau = record {
    kp = given (zero_of d) kp;
    kd = given (zero_of d) kd;
    q = given (zero_of d) q;
    dq = given (zero_of d) dq;
    tau = given (zero_of d) tau;
  }

module _ {D : Type 0} where
  abbrev pub mit_command : List (Attribute (MitCommand D) D)
  mit_command =
      record { name = codes "kp"; read = λ c. c.kp; write = λ v c. record c { kp = v } }
      ∷ record { name = codes "kd"; read = λ c. c.kd; write = λ v c. record c { kd = v } }
      ∷ record { name = codes "q"; read = λ c. c.q; write = λ v c. record c { q = v } }
      ∷ record { name = codes "dq"; read = λ c. c.dq; write = λ v c. record c { dq = v } }
      ∷ record { name = codes "tau"; read = λ c. c.tau; write = λ v c. record c { tau = v } }
      ∷ []

  -- The members of `MotorState`: its two numbers, and the four of type `double`.
  abbrev pub motor_state_ids : List (Readable (MotorState D) ℕ)
  motor_state_ids =
      record { name = codes "can_id"; read = λ s. s.can_id }
      ∷ record { name = codes "mst_id"; read = λ s. s.mst_id }
      ∷ []

  abbrev pub motor_state : List (Readable (MotorState D) D)
  motor_state =
      record { name = codes "position"; read = λ s. s.position }
      ∷ record { name = codes "velocity"; read = λ s. s.velocity }
      ∷ record { name = codes "torque"; read = λ s. s.torque }
      ∷ record { name = codes "feedback_interval_s"; read = λ s. s.feedback_interval_s }
      ∷ []

abbrev pub motor_config_init : MotorConfig
motor_config_init = record { name = []; model = dm4310; mode = mit; can_id = 0; mst_id = 0 }

abbrev pub motor_config_name : Attribute MotorConfig Text
motor_config_name = record {
  name = codes "name";
  read = λ m. m.name;
  write = λ v m. record m { name = v };
}

abbrev pub motor_config_model : Attribute MotorConfig MotorModel
motor_config_model = record {
  name = codes "model";
  read = λ m. m.model;
  write = λ v m. record m { model = v };
}

abbrev pub motor_config_mode : Attribute MotorConfig ControlMode
motor_config_mode = record {
  name = codes "mode";
  read = λ m. m.mode;
  write = λ v m. record m { mode = v };
}

abbrev pub motor_config_ids : List (Attribute MotorConfig ℕ)
motor_config_ids =
    record { name = codes "can_id"; read = λ m. m.can_id; write = λ v m. record m { can_id = v } }
    ∷ record { name = codes "mst_id"; read = λ m. m.mst_id; write = λ v m. record m { mst_id = v } }
    ∷ []

abbrev pub arm_config_init : ArmConfig
arm_config_init = record {
  usb_serial = [];
  nom_baud = 1_000_000;
  dat_baud = 1_000_000;
  loop_period = 1;
  motors = [];
}

abbrev pub arm_config_usb_serial : Attribute ArmConfig Text
arm_config_usb_serial = record {
  name = codes "usb_serial";
  read = λ a. a.usb_serial;
  write = λ v a. record a { usb_serial = v };
}

abbrev pub arm_config_bauds : List (Attribute ArmConfig ℕ)
arm_config_bauds =
    record {
      name = codes "nom_baud";
      read = λ a. a.nom_baud;
      write = λ v a. record a { nom_baud = v };
    }
    ∷ record {
      name = codes "dat_baud";
      read = λ a. a.dat_baud;
      write = λ v a. record a { dat_baud = v };
    }
    ∷ []

abbrev pub arm_config_motors : Attribute ArmConfig (List MotorConfig)
arm_config_motors = record {
  name = codes "motors";
  read = λ a. a.motors;
  write = λ v a. record a { motors = v };
}

unfoldable pub load_arm_config : {N : Type 0} → Yaml N → Text → Result ArmConfig
load_arm_config y path = Loader.load_arm_config y path

pub record DmArm (D C : Type 0) : Type 0 where
  pub init : ArmConfig → Arm C
  pub connect : Action (Arm C) (Unit {0})
  pub disable : Arm C → Arm C
  pub connected : Arm C → Bool
  pub send_mit_all : List (MitCommand D) → Action (Arm C) (Unit {0})
  pub send_zero_mit_all : Action (Arm C) (Unit {0})
  pub set_zero : ℕ → Option Bool → Action (Arm C) (Unit {0})
  pub set_zero_all : Option Bool → Action (Arm C) (Unit {0})
  pub states : Arm C → Result (List (MotorState D))

-- `start` and `stop` are their calls, which Controller/Threads.antt follows to their ends.
pub record MitLoopController (D C : Type 0) : Type 0 where
  pub init : Arm C → Controller D C
  pub start : Option D → System D C → System D C
  pub stop : System D C → System D C
  pub running : Controller D C → Bool
  pub set_command : ℕ → MitCommand D → Action (Controller D C) (Unit {0})
  pub set_all_commands : List (MitCommand D) → Action (Controller D C) (Unit {0})
  pub commands : Controller D C → List (MitCommand D)

module _ {D F C H : Type 0} ⦃d : Double D⦄ (k : Sdk D F C H) where
  abbrev pub dm_arm : DmArm D C
  dm_arm = record {
    init = Arm.make;
    connect = Arm.connect k;
    disable = Arm.disable;
    connected = Arm.connected;
    send_mit_all = Arm.send_mit_all k;
    send_zero_mit_all = Arm.send_zero_mit_all k;
    set_zero = λ can_id persist. Arm.set_zero k can_id (given true persist);
    set_zero_all = λ persist. Arm.set_zero_all k (given true persist);
    states = Arm.states k;
  }

  abbrev pub mit_loop_controller : MitLoopController D C
  mit_loop_controller = record {
    init = Controller.make;
    start = λ hz. begin_start k (given (d.literal 1000 1) hz);
    stop = begin_stop k;
    running = Methods.running;
    set_command = Controller.set_command;
    set_all_commands = Controller.set_all_commands;
    commands = Methods.commands;
  }
