-- ===== src/DmMotor/Devices/Balance.antt =====
-- What resources/DMmotor/src/dev_sn.cpp gives back to libusb.
use dmopenarm.Base.{
  ℕ, suc, ◌≡◌, refl, ap, ◌∙◌, Bool, true, false, List, [], ◌∷◌, ltb, if◌then◌else◌,
}
use dmopenarm.Text.{Text}
use dmopenarm.DmMotor.Devices
use dmopenarm.DmMotor.Devices.{
  Called, done, fails, Descriptor, Libusb, Listing, is_adapter, read_serial, visit, visit_all, main,
}

-- What libusb holds for the program: contexts, device lists and open devices.
pub record Held : Type 0 where
  pub contexts : ℕ
  pub lists : ℕ
  pub handles : ℕ

abbrev pub context_more : Held → Held
context_more h = record h { contexts = suc h.contexts }

abbrev pub list_more : Held → Held
list_more h = record h { lists = suc h.lists }

abbrev pub handle_more : Held → Held
handle_more h = record h { handles = suc h.handles }

-- What a call adds, where it succeeds; a call that fails adds nothing.
abbrev pub added : {A : Type 0} → (Held → Held) → Called A → Held → Held
added more (done a) h = more h
added more (fails name) h = h

-- The documented accounting of libusb, with a reading of what it holds.
pub record LibusbLaws {S V H : Type 0} (u : Libusb S V H) : Type 0 where
  pub held : S → Held
  pub init_holds : (s : S) → held (u.init s).1 ≡ added context_more (u.init s).0 (held s)
  pub list_holds :
      (s : S) → held (u.get_device_list s).1 ≡ added list_more (u.get_device_list s).0 (held s)
  pub descriptor_holds : (v : V) (s : S) → held (u.get_device_descriptor v s).1 ≡ held s
  pub open_holds :
      (v : V) (s : S)
      → held (u.open_device v s).1 ≡ added handle_more (u.open_device v s).0 (held s)
  pub string_holds : (h : H) (i : ℕ) (s : S) → held (u.get_string_descriptor_ascii h i s).1 ≡ held s
  pub close_holds : (h : H) (s : S) (x : Held) → held s ≡ handle_more x → held (u.close h s) ≡ x
  pub free_holds : (s : S) (x : Held) → held s ≡ list_more x → held (u.free_device_list s) ≡ x
  pub exit_holds : (s : S) (x : Held) → held s ≡ context_more x → held (u.exit s) ≡ x

module _ {S V H : Type 0} (u : Libusb S V H) (laws : LibusbLaws u) where
  open laws use {held}

  serial_text-held :
      (r : Called Text × S) (l : Listing S) → held (Devices.serial_text u r l).1.usb ≡ held r.1
  serial_text-held (done serial, usb) l = refl
  serial_text-held (fails name, usb) l = refl

  read_serial-held :
      (handle : H) (desc : Descriptor) (l : Listing S)
      → held (read_serial u handle desc l).1.usb ≡ held l.usb
  unfolding read_serial
  read_serial-held handle desc l = asked (ltb 0 desc.serial_index)
    where
      r : Called Text × S
      r = u.get_string_descriptor_ascii handle desc.serial_index l.usb

      asked :
          (b : Bool) → held (if b then Devices.serial_text u r l else ([], l)).1.usb ≡ held l.usb
      asked true = serial_text-held r l ∙ laws.string_holds handle desc.serial_index l.usb
      asked false = refl

  show_device-held :
      (i : ℕ) (desc : Descriptor) (r : Called H × S) (l : Listing S) (x : Held)
      → held r.1 ≡ added handle_more r.0 x
      → held (Devices.show_device u i desc r l).usb ≡ x
  show_device-held i desc (fails name, usb) l x e = e
  show_device-held i desc (done handle, usb) l x e =
      laws.close_holds handle _ x (read_serial-held handle desc (record l { usb = usb }) ∙ e)

  with_descriptor-held :
      (i : ℕ) (device : V) (r : Called Descriptor × S) (l : Listing S)
      → held (Devices.with_descriptor u i device r l).usb ≡ held r.1
  with_descriptor-held i device (fails name, usb) l = refl
  with_descriptor-held i device (done desc, usb) l = opened (is_adapter desc)
    where
      opened :
          (b : Bool)
          → held
              (if b
                then Devices.show_device u i desc
                    (u.open_device device usb)
                    (record l { usb = usb })
                else record l { usb = usb }).usb
            ≡ held usb
      opened true =
          show_device-held i desc (u.open_device device usb) (record l { usb = usb }) (held usb)
            (laws.open_holds device usb)
      opened false = refl

  visit_all-held :
      (i : ℕ) (devices : List V) (l : Listing S) → held (visit_all u i devices l).usb ≡ held l.usb
  unfolding visit_all visit
  visit_all-held i [] l = refl
  visit_all-held i (device ∷ devices) l =
      visit_all-held (suc i) devices (visit u i device l)
      ∙ with_descriptor-held i device (u.get_device_descriptor device l.usb) l
      ∙ laws.descriptor_holds device l.usb

  with_list-held :
      (r : Called (List V) × S) (x : Held)
      → held r.1 ≡ added list_more r.0 (context_more x)
      → held (Devices.with_list u r).usb ≡ x
  with_list-held (fails name, usb) x e = laws.exit_holds usb x e
  with_list-held (done devices, usb) x e =
      laws.exit_holds _ x (laws.free_holds _ (context_more x) (visit_all-held 0 devices _ ∙ e))

  with_context-held :
      (r : Called (Unit {0}) × S) (x : Held)
      → held r.1 ≡ added context_more r.0 x
      → held (Devices.with_context u r).usb ≡ x
  with_context-held (fails name, usb) x e = e
  with_context-held (done _, usb) x e =
      with_list-held (u.get_device_list usb) x
        (laws.list_holds usb ∙ ap (added list_more (u.get_device_list usb).0) e)

  -- Whatever calls of libusb fail, for whatever devices, the program ends with as many contexts, device
  -- lists and open devices as there were before it: it gives back each one it got.
  pub main-held : (s : S) → held (main u s).usb ≡ held s
  unfolding main
  main-held s = with_context-held (u.init s) (held s) (laws.init_holds s)
