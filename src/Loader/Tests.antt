-- ===== src/Loader/Tests.antt =====
-- Runs of the loader, those of tests/test_yaml_loader.cpp among them, and its properties at them.
use dmopenarm.Base.{◌≡◌, refl, ◌↔◌, [], ◌∷◌, ok, err, runtime_error}
use dmopenarm.Text.{codes}
use dmopenarm.Loader.{load_arm_config}
use dmopenarm.Loader.Document.{Describes, load_arm_config_iff}
use dmopenarm.Loader.Checks.{IsWellFormed, load_arm_config-IsWellFormed}
use dmopenarm.Loader.Fixture.{Node, null, files, two_motors, doubled}
use dmopenarm.Loader.Runs.{arm_of, first_motor, last_motor, run, load_two}

load_doubled :
    load_arm_config (files doubled) (codes "arm.yaml")
    ≡ err (runtime_error (codes "duplicate CAN ID: 0x1"))
unfolding run doubled
load_doubled = refl

load_missing :
    load_arm_config (files null) (codes "arm.yaml")
    ≡ err (runtime_error (codes "missing required config field: root.usb"))
unfolding run
load_missing = refl

load_nowhere :
    load_arm_config (files null) (codes "x")
    ≡ err (runtime_error (codes "failed to load arm config x: bad file: x"))
unfolding run
load_nowhere = refl

load_arm_config_iff_example :
    let y = files two_motors in
    let c = arm_of (first_motor ∷ last_motor ∷ []) in
    (load_arm_config y (codes "arm.yaml") ≡ ok c)
    ↔ ((root : Node) × (y.load_file (codes "arm.yaml") ≡ ok root) × Describes ⦃y = y⦄ root c)
load_arm_config_iff_example =
    load_arm_config_iff (files two_motors) (codes "arm.yaml")
      (arm_of (first_motor ∷ last_motor ∷ []))

load_arm_config-IsWellFormed_example : IsWellFormed (arm_of (first_motor ∷ last_motor ∷ []))
load_arm_config-IsWellFormed_example =
    load_arm_config-IsWellFormed (files two_motors) (codes "arm.yaml")
      (arm_of (first_motor ∷ last_motor ∷ [])) load_two
