-- ===== src/Types.antt =====
-- dm_openarm/include/dm_openarm/types.hpp and config.hpp: the data that the components pass to one another.
-- The 16-bit and 32-bit fields are numbers.
use dmopenarm.Base.{ℕ, List}
use dmopenarm.Text.{Text}
use dmopenarm.Double.{Double, zero_of}

pub data MotorModel : Type 0 where
  dm4310 dm8009 : MotorModel

pub data ControlMode : Type 0 where
  mit : ControlMode

pub record MitCommand (D : Type 0) : Type 0 where
  pub kp : D
  pub kd : D
  pub q : D
  pub dq : D
  pub tau : D

-- A default-initialised `MitCommand`.
abbrev pub default_command : {D : Type 0} ⦃d : Double D⦄ → MitCommand D
default_command ⦃d⦄ = record {
  kp = zero_of d;
  kd = zero_of d;
  q = zero_of d;
  dq = zero_of d;
  tau = zero_of d;
}

pub record MotorState (D : Type 0) : Type 0 where
  pub can_id : ℕ
  pub mst_id : ℕ
  pub position : D
  pub velocity : D
  pub torque : D
  pub feedback_interval_s : D

-- A default-initialised `MotorState`.
abbrev pub default_state : {D : Type 0} ⦃d : Double D⦄ → MotorState D
default_state ⦃d⦄ = record {
  can_id = 0;
  mst_id = 0;
  position = zero_of d;
  velocity = zero_of d;
  torque = zero_of d;
  feedback_interval_s = zero_of d;
}

pub record MotorConfig : Type 0 where
  pub name : Text
  pub model : MotorModel
  pub mode : ControlMode
  pub can_id : ℕ
  pub mst_id : ℕ

-- `loop_period` is in milliseconds.
pub record ArmConfig : Type 0 where
  pub usb_serial : Text
  pub nom_baud : ℕ
  pub dat_baud : ℕ
  pub loop_period : ℕ
  pub motors : List MotorConfig
