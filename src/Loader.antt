-- ===== src/Loader.antt =====
-- dm_openarm/src/yaml_loader.cpp: a YAML file to an `ArmConfig`, or the exception that tells what is wrong.
pub mod Fields
pub mod Distinct
pub mod Motors
pub mod Document
pub mod Checks
pub mod Fixture
pub mod Runs
mod Tests
use dmopenarm.Base.{
  ℕ, zero, suc, ◌+◌, Bool, false, not, ◌||◌, Option, none, some, List, [], ◌∷◌, ◌++◌, ltb, ◌==◌,
  if◌then◌else◌, length, runtime_error, Result, ok, err,
}
use dmopenarm.Base.Outcome.{◌>>=◌, ◌>>◌, throw_if, what}
use dmopenarm.Text.{Text, codes, text_eq, is_empty}
use dmopenarm.Text.Print.{to_string, to_hex}
use dmopenarm.Text.Stoul.{stoul}
use dmopenarm.Types.{MotorModel, dm4310, dm8009, ControlMode, mit, MotorConfig, ArmConfig}
use dmopenarm.Yaml.{Yaml}

abbrev pub uint32_max : ℕ
uint32_max = 0xffff_ffff

abbrev pub uint16_max : ℕ
uint16_max = 0xffff

-- `can_ids.insert(id).second` is false exactly if the set has the number already.
unfoldable pub contains : List ℕ → ℕ → Bool
contains [] id = false
contains (x ∷ xs) id = x == id || contains xs id

-- `if(value > std::numeric_limits<std::uint16_t>::max())`.
to_uint16 : ℕ → Text → Result ℕ
to_uint16 value path = do
  throw_if (ltb uint16_max value)
      (runtime_error (codes "config field is outside uint16 range: " ++ path))
  ok value

text_to_uint32 : Text → Text → Result ℕ
text_to_uint32 text path = elim (stoul text) [
  | none ↦ err (runtime_error (codes "config field must be an unsigned integer: " ++ path))
  | some (value, parsed) ↦
      if not (parsed == length text) || ltb uint32_max value
      then err (runtime_error (codes "config field is outside uint32 range: " ++ path))
      else ok value
]

text_to_model : Text → Text → Result MotorModel
text_to_model value path =
    if text_eq value (codes "DM4310")
    then ok dm4310
    else if text_eq value (codes "DM8009")
    then ok dm8009
    else if text_eq value (codes "DM8009P")
    then err
        (runtime_error (codes "unknown motor model DM8009P in " ++ (path ++ codes "; use DM8009")))
    else err (runtime_error (codes "unknown motor model in " ++ (path ++ (codes ": " ++ value))))

text_to_mode : Text → Text → Result ControlMode
text_to_mode value path =
    if text_eq value (codes "MIT")
    then ok mit
    else err
        (runtime_error (codes "only MIT mode is supported in " ++ (path ++ (codes ": " ++ value))))

-- What the loop over the motors carries: the two sets and `config.motors`.
pub record Seen : Type 0 where
  pub can_ids : List ℕ
  pub mst_ids : List ℕ
  pub motors : List MotorConfig

-- The end of one round of the loop: the two tests for duplicates and the new motor.
unfoldable pub push_motor : Seen → MotorConfig → Result Seen
push_motor s m = do
  throw_if (contains s.can_ids m.can_id)
      (runtime_error (codes "duplicate CAN ID: 0x" ++ to_hex m.can_id))
  throw_if (contains s.mst_ids m.mst_id)
      (runtime_error (codes "duplicate MST ID: 0x" ++ to_hex m.mst_id))
  ok (record {
    can_ids = m.can_id ∷ s.can_ids;
    mst_ids = m.mst_id ∷ s.mst_ids;
    motors = s.motors ++ (m ∷ []);
  })

-- `"motors[" + std::to_string(i) + "]"`.
abbrev pub prefix_at : ℕ → Text
prefix_at i = codes "motors[" ++ (to_string i ++ codes "]")

module _ {N : Type 0} ⦃y : Yaml N⦄ where
  required : Option N → Text → Text → Result N
  required (some child) key path = ok child
  required none key path =
      err (runtime_error (codes "missing required config field: " ++ (path ++ (codes "." ++ key))))

  unfoldable pub require_node : N → Text → Text → Result N
  unfolding required
  require_node node key path = do child ← y.child node key; required child key path

  unfoldable pub scalar_string : N → Text → Result Text
  scalar_string node path = do
    throw_if (not (y.is_scalar node))
        (runtime_error (codes "config field must be scalar: " ++ path))
    ok (y.scalar node)

  unfoldable pub parse_uint32 : N → Text → Result ℕ
  unfolding text_to_uint32
  parse_uint32 node path = do text ← scalar_string node path; text_to_uint32 text path

  unfoldable pub parse_uint16 : N → Text → Result ℕ
  unfolding to_uint16
  parse_uint16 node path = do value ← parse_uint32 node path; to_uint16 value path

  unfoldable pub parse_model : N → Text → Result MotorModel
  unfolding text_to_model
  parse_model node path = do value ← scalar_string node path; text_to_model value path

  unfoldable pub parse_mode : N → Text → Result ControlMode
  unfolding text_to_mode
  parse_mode node path = do value ← scalar_string node path; text_to_mode value path

  -- One field: `parse(require_node(node, key, prefix), prefix + "." + key)`.
  unfoldable pub field : {A : Type 0} → (N → Text → Result A) → N → Text → Text → Result A
  field parse node key prefix = do
    child ← require_node node key prefix
    parse child (prefix ++ (codes "." ++ key))

  -- The first part of one round of the loop: `motor_config` from its five fields.
  unfoldable pub parse_motor : N → Text → Result MotorConfig
  unfolding field
  parse_motor motor prefix = do
    name ← field scalar_string motor (codes "name") prefix
    model ← field parse_model motor (codes "model") prefix
    mode ← field parse_mode motor (codes "mode") prefix
    can_id ← field parse_uint16 motor (codes "can_id") prefix
    mst_id ← field parse_uint16 motor (codes "mst_id") prefix
    ok (record { name = name; model = model; mode = mode; can_id = can_id; mst_id = mst_id })

  -- The loop from index `i` on, with `left` motors to go.
  unfoldable pub load_motors : N → ℕ → ℕ → Seen → Result Seen
  load_motors motors zero i s = ok s
  load_motors motors (suc left) i s = do
    m ← parse_motor (y.item motors i) (prefix_at i)
    s' ← push_motor s m
    load_motors motors left (i + 1) s'

  -- The whole loop, and the test after it.
  unfoldable pub load_motor_list : N → Result (List MotorConfig)
  load_motor_list motors = do
    s ← load_motors motors (y.size motors) 0 (record { can_ids = []; mst_ids = []; motors = [] })
    throw_if (is_empty s.motors) (runtime_error (codes "motors must contain at least one motor"))
    ok s.motors

  -- `load_arm_config` from the test of `motors` on.
  unfoldable pub load_sections : N → N → N → Result ArmConfig
  load_sections usb control motors = do
    throw_if (not (y.is_sequence motors))
        (runtime_error (codes "config field must be a sequence: motors"))
    usb_serial ← field scalar_string usb (codes "serial") (codes "usb")
    throw_if (is_empty usb_serial) (runtime_error (codes "usb.serial must not be empty"))
    nom_baud ← field parse_uint32 usb (codes "nominal_baud") (codes "usb")
    dat_baud ← field parse_uint32 usb (codes "data_baud") (codes "usb")
    loop_period ← field parse_uint32 control (codes "loop_period_ms") (codes "control")
    motor_list ← load_motor_list motors
    ok (record {
      usb_serial = usb_serial;
      nom_baud = nom_baud;
      dat_baud = dat_baud;
      loop_period = loop_period;
      motors = motor_list;
    })

  -- The body of `load_arm_config` once the file is parsed.
  unfoldable pub load_root : N → Result ArmConfig
  load_root root = do
    usb ← require_node root (codes "usb") (codes "root")
    control ← require_node root (codes "control") (codes "root")
    motors ← require_node root (codes "motors") (codes "root")
    load_sections usb control motors

  -- Any exception of `YAML::LoadFile` becomes one that names the file.
  loaded : Text → Result N → Result ArmConfig
  unfolding load_root
  loaded path (ok root) = load_root root
  loaded path (err e) =
      err (runtime_error (codes "failed to load arm config " ++ (path ++ (codes ": " ++ what e))))

unfoldable pub load_arm_config : {N : Type 0} → Yaml N → Text → Result ArmConfig
unfolding loaded
load_arm_config y path = loaded ⦃y = y⦄ path (y.load_file path)
