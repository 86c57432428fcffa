-- ===== src/DmMotor/Devices.antt =====
-- resources/DMmotor/src/dev_sn.cpp: the program that lists the serial numbers of the adapters. libusb is a
-- parameter: `S` is what it holds at one moment, `V` a device and `H` an open one.
pub mod Balance
pub mod Printed
use dmopenarm.Base.{
  ℕ, suc, ◌+◌, ◌<◌, Bool, true, false, not, ◌||◌, List, [], ◌∷◌, ◌++◌, ◌==◌, ltb, if◌then◌else◌,
}
use dmopenarm.Text.{Text, codes, is_empty}
use dmopenarm.Text.Print.{to_string, to_hex}

-- What a call gave: a value, or a negative number by its `libusb_error_name`.
pub data Called (A : Type 0) : Type 0 where
  done : A → Called A
  fails : Text → Called A

pub record Descriptor : Type 0 where
  pub vendor : ℕ
  pub product : ℕ
  pub serial_index : ℕ

pub record Libusb (S V H : Type 0) : Type 0 where
  pub init : S → Called (Unit {0}) × S
  -- The devices before the null pointer.
  pub get_device_list : S → Called (List V) × S
  pub get_device_descriptor : V → S → Called Descriptor × S
  pub open_device : V → S → Called H × S
  pub get_string_descriptor_ascii : H → ℕ → S → Called Text × S
  pub close : H → S → S
  pub free_device_list : S → S
  pub exit : S → S

pub data Shown : Type 0 where
  -- The number of the device, its two IDs and its serial number, as they are written.
  adapter : Text → Text → Text → Text → Shown
  complained : Text → Shown

-- The state of the program: libusb, whether `std::hex` was written, and the output.
pub record Listing (S : Type 0) : Type 0 where
  pub usb : S
  pub hex : Bool
  pub output : List Shown

-- An `int` as the stream writes it.
unfoldable pub written : Bool → ℕ → Text
written true n = to_hex n
written false n = to_string n

abbrev pub no_serial : Text
no_serial = codes "[No serial number]"

unfoldable pub or_no_serial : Text → Text
or_no_serial serial = elim (is_empty serial) [ true ↦ no_serial | false ↦ serial ]

abbrev pub is_adapter : Descriptor → Bool
is_adapter desc = not (not (desc.vendor == 0x34B7) || not (desc.product == 0x6877))

module _ {S V H : Type 0} (u : Libusb S V H) where
  abbrev pub complain : Text → Text → Listing S → Listing S
  complain words name l = record l { output = l.output ++ (complained (words ++ name) ∷ []) }

  abbrev pub serial_text : Called Text × S → Listing S → Text × Listing S
  serial_text (done serial, usb) l = (serial, record l { usb = usb })
  serial_text (fails name, usb) l =
      ([], complain (codes "Failed to obtain serial number: ") name (record l { usb = usb }))

  -- The serial number of an open device, empty where it has none.
  unfoldable pub read_serial : H → Descriptor → Listing S → Text × Listing S
  read_serial handle desc l =
      let asked = serial_text (u.get_string_descriptor_ascii handle desc.serial_index l.usb) l in
      if ltb 0 desc.serial_index then asked else ([], l)

  -- The lines for a device, behind which the stream stays in base 16.
  abbrev pub print_device : ℕ → Descriptor → Text × Listing S → Listing S
  print_device i desc (serial, l) = record l {
    hex = true;
    output =
        l.output
        ++ (adapter (written l.hex i) (to_hex desc.vendor) (to_hex desc.product)
              (or_no_serial serial)
            ∷ []);
  }

  abbrev pub show_device : ℕ → Descriptor → Called H × S → Listing S → Listing S
  show_device i desc (fails name, usb) l =
      complain (codes "Failed to open device: ") name (record l { usb = usb })
  show_device i desc (done handle, usb) l =
      let shown = print_device i desc (read_serial handle desc (record l { usb = usb })) in
      record shown { usb = u.close handle shown.usb }

  abbrev pub with_descriptor : ℕ → V → Called Descriptor × S → Listing S → Listing S
  with_descriptor i device (fails name, usb) l =
      complain (codes "Failed to obtain device descriptor: ") name (record l { usb = usb })
  with_descriptor i device (done desc, usb) l =
      if is_adapter desc
      then show_device i desc (u.open_device device usb) (record l { usb = usb })
      else record l { usb = usb }

  -- One round of the loop.
  unfoldable pub visit : ℕ → V → Listing S → Listing S
  visit i device l = with_descriptor i device (u.get_device_descriptor device l.usb) l

  unfoldable pub visit_all : ℕ → List V → Listing S → Listing S
  unfolding visit
  visit_all i [] l = l
  visit_all i (device ∷ devices) l = visit_all (suc i) devices (visit i device l)

  pub record Left : Type 0 where
    pub code : ℕ
    pub usb : S
    pub output : List Shown

  abbrev pub with_list : Called (List V) × S → Left
  with_list (fails name, usb) = record {
    code = 1;
    usb = u.exit usb;
    output = complained (codes "Failed to obtain device list: " ++ name) ∷ [];
  }
  with_list (done devices, usb) =
      let l = visit_all 0 devices (record { usb = usb; hex = false; output = [] }) in
      record { code = 0; usb = u.exit (u.free_device_list l.usb); output = l.output }

  abbrev pub with_context : Called (Unit {0}) × S → Left
  with_context (fails name, usb) = record {
    code = 1;
    usb = usb;
    output = complained (codes "Failed to initialize libusb: " ++ name) ∷ [];
  }
  with_context (done _, usb) = with_list (u.get_device_list usb)

  unfoldable pub main : S → Left
  unfolding visit_all
  main usb = with_context (u.init usb)
