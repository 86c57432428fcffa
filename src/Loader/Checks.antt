-- ===== src/Loader/Checks.antt =====
-- What every configuration that dm_openarm/src/yaml_loader.cpp returns satisfies, for the components that use it.
use dmopenarm.Base.{ℕ, ◌+◌, ◌^◌, ◌<◌, ◌≡◌, ◌≢◌, false, List, [], ◌∷◌, All, ok}
use dmopenarm.Text.{Text, is_empty}
use dmopenarm.Types.{MotorConfig, ArmConfig}
use dmopenarm.Yaml.{Yaml}
use dmopenarm.Loader.{load_arm_config}
use dmopenarm.Loader.Distinct.{Distinct}
use dmopenarm.Loader.Motors.{AreMotors, can_ids_of, mst_ids_of}
use dmopenarm.Loader.Document.{load_arm_config_iff}

pub record HasIds (m : MotorConfig) : Type 0 where
  pub can_fits : m.can_id < 2 ^ 16
  pub mst_fits : m.mst_id < 2 ^ 16

pub record IsWellFormed (c : ArmConfig) : Type 0 where
  pub serial_nonempty : c.usb_serial ≢ []
  pub nom_fits : c.nom_baud < 2 ^ 32
  pub dat_fits : c.dat_baud < 2 ^ 32
  pub period_fits : c.loop_period < 2 ^ 32
  pub motors_nonempty : c.motors ≢ []
  pub ids_fit : All HasIds c.motors
  pub can_distinct : Distinct (can_ids_of c.motors)
  pub mst_distinct : Distinct (mst_ids_of c.motors)

nonempty-of_is_empty {ℓ} : {A : Type ℓ} (xs : List A) → is_empty xs ≡ false → xs ≢ []
nonempty-of_is_empty [] h e = cc
nonempty-of_is_empty (x ∷ xs) h e = cc

module _ {N : Type 0} ⦃y : Yaml N⦄ where
  HasIds-of_AreMotors :
      (motors : N) (i : ℕ) (ms : List MotorConfig) → AreMotors motors i ms → All HasIds ms
  HasIds-of_AreMotors motors i [] a = tt
  HasIds-of_AreMotors motors i (m ∷ ms) (a, rest) = (
    record { can_fits = a.has_can_id.holds.fits; mst_fits = a.has_mst_id.holds.fits },
    HasIds-of_AreMotors motors (i + 1) ms rest,
  )

-- Every configuration that the loader returns has a serial, at least one motor, numbers that fit
-- their fields, and no CAN ID and no MST ID twice.
pub load_arm_config-IsWellFormed :
    {N : Type 0} (y : Yaml N) (path : Text) (c : ArmConfig)
    → load_arm_config y path ≡ ok c
    → IsWellFormed c
load_arm_config-IsWellFormed y path c h =
    let (root, _, d) = (load_arm_config_iff y path c).0 h in
    record {
      serial_nonempty = nonempty-of_is_empty c.usb_serial d.serial_nonempty;
      nom_fits = d.has_nom_baud.holds.fits;
      dat_fits = d.has_dat_baud.holds.fits;
      period_fits = d.has_loop_period.holds.fits;
      motors_nonempty = nonempty-of_is_empty c.motors d.motor_list.nonempty;
      ids_fit = HasIds-of_AreMotors ⦃y = y⦄ d.motors 0 c.motors d.motor_list.are;
      can_distinct = d.motor_list.can_distinct;
      mst_distinct = d.motor_list.mst_distinct;
    }
