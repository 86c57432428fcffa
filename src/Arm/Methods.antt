-- ===== src/Arm/Methods.antt =====
-- The destructor of dm_openarm/src/dm_arm.cpp, and the method that gives the configuration.
use dmopenarm.Types.{ArmConfig}
use dmopenarm.Arm.{Arm, disable}

module _ {C : Type 0} where
  abbrev pub destroy : Arm C → Arm C
  destroy = disable

  abbrev pub config : Arm C → ArmConfig
  config a = a.config
