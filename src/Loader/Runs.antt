-- ===== src/Loader/Runs.antt =====
-- A run of the loader on the document of two motors that Loader/Fixture.antt describes.
use dmopenarm.Base.{ℕ, ◌≡◌, refl, List, [], ◌∷◌, ok}
use dmopenarm.Text.{codes, text_eq}
use dmopenarm.Text.Print.{to_string, to_hex}
use dmopenarm.Text.Stoul.{stoul}
use dmopenarm.Types.{MotorConfig, ArmConfig, dm4310, dm8009, mit}
use dmopenarm.Loader.{
  contains, push_motor, parse_motor, load_motors, load_motor_list, load_sections, load_root,
  load_arm_config, require_node, field, scalar_string, parse_uint32, parse_uint16, parse_model,
  parse_mode,
}
use dmopenarm.Loader.Fixture.{files, two_motors, child, item, size, open_file}
use dmopenarm.Base.Outcome.{what}

-- What a run of the loader opens.
abbrev pub arm_of : List MotorConfig → ArmConfig
arm_of motors = record {
  usb_serial = codes "14AA044B";
  nom_baud = 1_000_000;
  dat_baud = 1_000_000;
  loop_period = 1;
  motors = motors;
}

abbrev pub first_motor : MotorConfig
first_motor = record {
  name = codes "end_effector";
  model = dm4310;
  mode = mit;
  can_id = 1;
  mst_id = 0x11;
}

abbrev pub last_motor : MotorConfig
last_motor = record {
  name = codes "shoulder";
  model = dm8009;
  mode = mit;
  can_id = 5;
  mst_id = 0x15;
}

-- The line of all that a run of the loader computes with.
unfoldable pub run : ℕ
unfolding codes text_eq to_string to_hex stoul contains push_motor parse_motor load_motors
    load_motor_list load_sections load_root load_arm_config require_node field scalar_string
    parse_uint32 parse_uint16 parse_model parse_mode child item size open_file what
run = 0

pub load_two :
    load_arm_config (files two_motors) (codes "arm.yaml")
    ≡ ok (arm_of (first_motor ∷ last_motor ∷ []))
unfolding run two_motors
load_two = refl
