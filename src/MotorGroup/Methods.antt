-- ===== src/MotorGroup/Methods.antt =====
-- The methods of dm_openarm/src/motor.cpp and dm_openarm/src/motor_group.cpp that only read.
use dmopenarm.Base.{List}
use dmopenarm.Types.{MotorConfig, MotorState}
use dmopenarm.MotorGroup.{Motor, MotorGroup}

module _ {D : Type 0} where
  abbrev pub config : Motor D → MotorConfig
  config m = m.config

  abbrev pub state : Motor D → MotorState D
  state m = m.state

  abbrev pub motors : MotorGroup D → List (Motor D)
  motors group = group
