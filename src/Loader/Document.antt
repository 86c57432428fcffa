-- ===== src/Loader/Document.antt =====
-- The document that describes an arm, and `load_arm_config` of dm_openarm/src/yaml_loader.cpp against it.
use dmopenarm.Base.{ℕ, ◌^◌, ◌≡◌, refl, ◌↔◌, true, false, some, arith, ok, err, Result}
use dmopenarm.Base.Outcome.{>>=-eq-ok}
use dmopenarm.Text.{Text, codes, is_empty}
use dmopenarm.Types.{ArmConfig}
use dmopenarm.Yaml.{Yaml}
use dmopenarm.Loader.{
  load_motor_list, load_sections, require_node, field, scalar_string, parse_uint32, load_root,
  load_arm_config, loaded,
}
use dmopenarm.Loader.Fields.{
  IsText, IsNumber, Has, require_node_iff, scalar_string_iff, parse_uint32_iff, field_iff,
}
use dmopenarm.Loader.Motors.{IsMotorList, IsMotorList-of_load, load-of_IsMotorList}

module _ {N : Type 0} ⦃y : Yaml N⦄ where
  pub record Describes (root : N) (c : ArmConfig) : Type 0 where
    pub usb : N
    pub control : N
    pub motors : N
    pub has_usb : y.child root (codes "usb") ≡ ok (some usb)
    pub has_control : y.child root (codes "control") ≡ ok (some control)
    pub has_motors : y.child root (codes "motors") ≡ ok (some motors)
    pub is_sequence : y.is_sequence motors ≡ true
    pub has_serial : Has IsText usb (codes "serial") c.usb_serial
    pub serial_nonempty : is_empty c.usb_serial ≡ false
    pub has_nom_baud : Has (IsNumber (2 ^ 32)) usb (codes "nominal_baud") c.nom_baud
    pub has_dat_baud : Has (IsNumber (2 ^ 32)) usb (codes "data_baud") c.dat_baud
    pub has_loop_period : Has (IsNumber (2 ^ 32)) control (codes "loop_period_ms") c.loop_period
    pub motor_list : IsMotorList motors c.motors

  load_sections_iff :
      (usb control motors : N) (c : ArmConfig)
      → (load_sections usb control motors ≡ ok c) ↔ (
          (y.is_sequence motors ≡ true)
          × (field scalar_string usb (codes "serial") (codes "usb") ≡ ok c.usb_serial)
          × (is_empty c.usb_serial ≡ false)
          × (field parse_uint32 usb (codes "nominal_baud") (codes "usb") ≡ ok c.nom_baud)
          × (field parse_uint32 usb (codes "data_baud") (codes "usb") ≡ ok c.dat_baud)
          × (field parse_uint32 control (codes "loop_period_ms") (codes "control")
              ≡ ok c.loop_period)
          × (load_motor_list motors ≡ ok c.motors))
  unfolding load_sections
  load_sections_iff usb control motors c = (λ h. ground arith, λ h. ground arith)

  IsNumber-iff :
      (node : N) (key prefix : Text) (n : ℕ)
      → (field parse_uint32 node key prefix ≡ ok n) ↔ Has (IsNumber (2 ^ 32)) node key n
  IsNumber-iff = field_iff (IsNumber (2 ^ 32)) parse_uint32 parse_uint32_iff

  Describes-of_load_root : (root : N) (c : ArmConfig) → load_root root ≡ ok c → Describes root c
  unfolding load_root
  Describes-of_load_root root c h =
      let (usb, a, h₁) = >>=-eq-ok (require_node root (codes "usb") (codes "root")) _ h in
      let (control, b, h₂) = >>=-eq-ok (require_node root (codes "control") (codes "root")) _ h₁ in
      let (motors, d, h₃) = >>=-eq-ok (require_node root (codes "motors") (codes "root")) _ h₂ in
      let (seq, serial, full, nom, dat, period, ms) =
        (load_sections_iff usb control motors c).0 h₃ in
      record {
        usb = usb;
        control = control;
        motors = motors;
        has_usb = (require_node_iff root _ _ usb).0 a;
        has_control = (require_node_iff root _ _ control).0 b;
        has_motors = (require_node_iff root _ _ motors).0 d;
        is_sequence = seq;
        has_serial = (field_iff IsText scalar_string scalar_string_iff usb _ _ _).0 serial;
        serial_nonempty = full;
        has_nom_baud = (IsNumber-iff usb _ _ _).0 nom;
        has_dat_baud = (IsNumber-iff usb _ _ _).0 dat;
        has_loop_period = (IsNumber-iff control _ _ _).0 period;
        motor_list = IsMotorList-of_load motors c.motors ms;
      }

  load_root-of_Describes : (root : N) (c : ArmConfig) → Describes root c → load_root root ≡ ok c
  unfolding load_root
  load_root-of_Describes root c h =
      rw
        (
          (require_node_iff root _ (codes "root") h.usb).1 h.has_usb,
          (require_node_iff root _ (codes "root") h.control).1 h.has_control,
          (require_node_iff root _ (codes "root") h.motors).1 h.has_motors,
        )
        ((load_sections_iff h.usb h.control h.motors c).1 (
          h.is_sequence,
          (field_iff IsText scalar_string scalar_string_iff h.usb _ _ _).1 h.has_serial,
          h.serial_nonempty,
          (IsNumber-iff h.usb _ _ _).1 h.has_nom_baud,
          (IsNumber-iff h.usb _ _ _).1 h.has_dat_baud,
          (IsNumber-iff h.control _ _ _).1 h.has_loop_period,
          load-of_IsMotorList h.motors c.motors h.motor_list,
        ))

loaded_iff :
    {N : Type 0} ⦃y : Yaml N⦄ (path : Text) (r : Result N) (c : ArmConfig)
    → (loaded path r ≡ ok c) ↔ ((root : N) × (r ≡ ok root) × (load_root root ≡ ok c))
unfolding loaded
loaded_iff path (ok root) c = (λ h. (root, refl, h), λ (other, e, h). ground arith)
loaded_iff path (err e) c = (λ h. absurd (cc), λ (other, p, h). absurd (cc))

-- The loader returns a configuration exactly when the file can be read and its document describes
-- that configuration.
pub load_arm_config_iff :
    {N : Type 0} (y : Yaml N) (path : Text) (c : ArmConfig)
    → (load_arm_config y path ≡ ok c)
      ↔ ((root : N) × (y.load_file path ≡ ok root) × Describes ⦃y = y⦄ root c)
unfolding load_arm_config
load_arm_config_iff y path c = (
  λ h.
      let (root, e, k) = (loaded_iff ⦃y = y⦄ path (y.load_file path) c).0 h in
      (root, e, Describes-of_load_root ⦃y = y⦄ root c k),
  λ (root, e, d).
      (loaded_iff ⦃y = y⦄ path (y.load_file path) c).1
        (root, e, load_root-of_Describes ⦃y = y⦄ root c d),
)
