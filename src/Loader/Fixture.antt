-- ===== src/Loader/Fixture.antt =====
-- A small document type with the operations of yaml-cpp, for runs: `load_file` knows one path.
use dmopenarm.Base.{
  ℕ, zero, suc, Bool, true, false, Option, none, some, Result, ok, err, foreign, [], ◌++◌,
  if◌then◌else◌,
}
use dmopenarm.Text.{Text, codes, text_eq}
use dmopenarm.Yaml.{Yaml}

mutual
  pub data Node : Type 0 where
    null : Node
    leaf : Text → Node
    seq : Items → Node
    tree : Fields → Node

  pub data Items : Type 0 where
    nil : Items
    cons : Node → Items → Items

  pub data Fields : Type 0 where
    end : Fields
    entry : Text → Node → Fields → Fields

find : Text → Fields → Option Node
unfolding text_eq
find key end = none
find key (entry k n rest) = if text_eq k key then some n else find key rest

unfoldable pub child : Node → Text → Result (Option Node)
unfolding find codes
child (tree fields) key = ok (find key fields)
child (leaf text) key = err (foreign (codes "operator[] call on a scalar"))
child (seq items) key = ok none
child null key = ok none

nth : Items → ℕ → Node
nth nil i = null
nth (cons n rest) zero = n
nth (cons n rest) (suc i) = nth rest i

unfoldable pub item : Node → ℕ → Node
unfolding nth
item (seq items) i = nth items i
item null i = null
item (leaf text) i = null
item (tree fields) i = null

count : Items → ℕ
count nil = 0
count (cons n rest) = suc (count rest)

unfoldable pub size : Node → ℕ
unfolding count
size (seq items) = count items
size null = 0
size (leaf text) = 0
size (tree fields) = 0

abbrev is_seq : Node → Bool
is_seq (seq items) = true
is_seq null = false
is_seq (leaf text) = false
is_seq (tree fields) = false

abbrev is_leaf : Node → Bool
is_leaf (leaf text) = true
is_leaf null = false
is_leaf (seq items) = false
is_leaf (tree fields) = false

abbrev text_of : Node → Text
text_of (leaf text) = text
text_of _ = []

-- A file system that holds one document, under the path "arm.yaml".
unfoldable pub open_file : Node → Text → Result Node
unfolding codes text_eq
open_file doc path =
    if text_eq path (codes "arm.yaml") then ok doc else err (foreign (codes "bad file: " ++ path))

abbrev pub files : Node → Yaml Node
files doc = record {
  load_file = open_file doc;
  child = child;
  item = item;
  size = size;
  is_sequence = is_seq;
  is_scalar = is_leaf;
  scalar = text_of;
}

motor_entry : Text → Text → Text → Text → Node
unfolding codes
motor_entry name model can_id mst_id = tree (
    entry (codes "name") (leaf name) (
      entry (codes "model") (leaf model) (
        entry (codes "mode") (leaf (codes "MIT"))
          (entry (codes "can_id") (leaf can_id) (entry (codes "mst_id") (leaf mst_id) end)))))

arm_with : Items → Node
unfolding codes
arm_with motors = tree (
    entry (codes "usb")
      (tree (
        entry (codes "serial") (leaf (codes "14AA044B")) (
          entry (codes "nominal_baud") (leaf (codes "1000000"))
            (entry (codes "data_baud") (leaf (codes "1000000")) end))))
      (entry (codes "control") (tree (entry (codes "loop_period_ms") (leaf (codes "1")) end))
        (entry (codes "motors") (seq motors) end)))

-- The first and the last motor of dm_openarm/config/arm_5dof.yaml.
unfoldable pub two_motors : Node
unfolding codes motor_entry arm_with
two_motors = arm_with (
    cons (motor_entry (codes "end_effector") (codes "DM4310") (codes "0x01") (codes "0x11"))
      (cons (motor_entry (codes "shoulder") (codes "DM8009") (codes "0x05") (codes "0x15")) nil))

-- The CAN ID of the second is the MST ID of the first.
unfoldable pub crossed : Node
unfolding codes motor_entry arm_with
crossed = arm_with (
    cons (motor_entry (codes "wrist") (codes "DM4310") (codes "1") (codes "2"))
      (cons (motor_entry (codes "elbow") (codes "DM8009") (codes "2") (codes "3")) nil))

-- The same CAN ID, written in two ways.
unfoldable pub doubled : Node
unfolding codes motor_entry arm_with
doubled = arm_with (
    cons (motor_entry (codes "wrist") (codes "DM4310") (codes "1") (codes "2"))
      (cons (motor_entry (codes "elbow") (codes "DM8009") (codes "0x1") (codes "3")) nil))
