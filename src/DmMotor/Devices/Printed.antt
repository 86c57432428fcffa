-- ===== src/DmMotor/Devices/Printed.antt =====
-- What resources/DMmotor/src/dev_sn.cpp writes.
use dmopenarm.Base.{
  ℕ, suc, ◌≡◌, ◌≢◌, refl, ap, Bool, true, false, List, [], ◌∷◌, ◌++◌, All, ltb, if◌then◌else◌,
  arith,
}
use dmopenarm.Text.{Text, codes}
use dmopenarm.Text.Print.{to_hex}
use dmopenarm.DmMotor.Devices
use dmopenarm.DmMotor.Devices.{
  Called, done, fails, Descriptor, Libusb, Shown, adapter, complained, Listing, written, is_adapter,
  no_serial, or_no_serial, read_serial, visit, visit_all, main,
}

-- A line on a device shows the two IDs of the adapter in base 16, and some text as its serial number.
abbrev pub ShowsAdapter : Shown → Type 0
ShowsAdapter (adapter number vendor product serial) =
    (vendor ≡ to_hex 0x34B7) × (product ≡ to_hex 0x6877) × (serial ≢ [])
ShowsAdapter (complained text) = Unit

All-append :
    (xs : List Shown) (x : Shown)
    → All ShowsAdapter xs
    → ShowsAdapter x
    → All ShowsAdapter (xs ++ (x ∷ []))
All-append [] x a p = (p, tt)
All-append (y ∷ xs) x (q, a) p = (q, All-append xs x a p)

or_no_serial-filled : (serial : Text) → or_no_serial serial ≢ []
unfolding or_no_serial codes
or_no_serial-filled [] e = absurd (cc)
or_no_serial-filled (c ∷ serial) e = absurd (cc)

is_adapter-ids :
    (desc : Descriptor) → is_adapter desc ≡ true → (desc.vendor ≡ 0x34B7) × (desc.product ≡ 0x6877)
is_adapter-ids desc e = ground arith

module _ {S V H : Type 0} (u : Libusb S V H) where
  abbrev Good : Listing S → Type 0
  Good l = All ShowsAdapter l.output

  serial_text-Good :
      (r : Called Text × S) (l : Listing S) → Good l → Good (Devices.serial_text u r l).1
  serial_text-Good (done serial, usb) l a = a
  serial_text-Good (fails name, usb) l a = All-append l.output _ a tt

  read_serial-Good :
      (handle : H) (desc : Descriptor) (l : Listing S)
      → Good l
      → Good (read_serial u handle desc l).1
  unfolding read_serial
  read_serial-Good handle desc l a = asked (ltb 0 desc.serial_index)
    where
      r : Called Text × S
      r = u.get_string_descriptor_ascii handle desc.serial_index l.usb

      asked : (b : Bool) → Good (if b then Devices.serial_text u r l else ([], l)).1
      asked true = serial_text-Good r l a
      asked false = a

  show_device-Good :
      (i : ℕ) (desc : Descriptor) (r : Called H × S) (l : Listing S)
      → is_adapter desc ≡ true
      → Good l
      → Good (Devices.show_device u i desc r l)
  show_device-Good i desc (fails name, usb) l e a = All-append l.output _ a tt
  show_device-Good i desc (done handle, usb) l e a =
      let asked = read_serial u handle desc (record l { usb = usb }) in
      let (vendor, product) = is_adapter-ids desc e in
      All-append asked.1.output _ (read_serial-Good handle desc (record l { usb = usb }) a)
        (ap to_hex vendor, ap to_hex product, or_no_serial-filled asked.0)

  with_descriptor-Good :
      (i : ℕ) (device : V) (r : Called Descriptor × S) (l : Listing S)
      → Good l
      → Good (Devices.with_descriptor u i device r l)
  with_descriptor-Good i device (fails name, usb) l a = All-append l.output _ a tt
  with_descriptor-Good i device (done desc, usb) l a = opened (is_adapter desc) refl
    where
      opened :
          (b : Bool)
          → is_adapter desc ≡ b
          → Good (
              if b
              then Devices.show_device u i desc (u.open_device device usb) (record l { usb = usb })
              else record l { usb = usb })
      opened true e =
          show_device-Good i desc (u.open_device device usb) (record l { usb = usb }) e a
      opened false e = a

  visit_all-Good :
      (i : ℕ) (devices : List V) (l : Listing S) → Good l → Good (visit_all u i devices l)
  unfolding visit_all visit
  visit_all-Good i [] l a = a
  visit_all-Good i (device ∷ devices) l a =
      visit_all-Good (suc i) devices (visit u i device l)
        (with_descriptor-Good i device (u.get_device_descriptor device l.usb) l a)

  with_context-Good :
      (r : Called (Unit {0}) × S) → All ShowsAdapter (Devices.with_context u r).output
  with_context-Good (fails name, usb) = (tt, tt)
  with_context-Good (done _, usb) = listed (u.get_device_list usb)
    where
      listed : (r : Called (List V) × S) → All ShowsAdapter (Devices.with_list u r).output
      listed (fails name, usb') = (tt, tt)
      listed (done devices, usb') = visit_all-Good 0 devices _ tt

  -- Whatever devices there are and whatever calls fail, each device that the program writes about has the
  -- vendor and the product ID of the adapter, and a serial number or the words for none.
  pub main-ShowsAdapter : (s : S) → All ShowsAdapter (main u s).output
  unfolding main
  main-ShowsAdapter s = with_context-Good (u.init s)
