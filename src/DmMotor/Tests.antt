-- ===== src/DmMotor/Tests.antt =====
-- resources/DMmotor/src/main.cpp and resources/DMmotor/src/dev_sn.cpp at concrete inputs.
use dmopenarm.Base.{ℕ, zero, ap, suc, ◌≡◌, refl, true, List, [], ◌∷◌}
use dmopenarm.Text.{codes}
use dmopenarm.Text.Print.{to_hex}
use dmopenarm.Double.Fixed.{fixed}
use dmopenarm.Sdk.{find_act}
use dmopenarm.Sdk.Simulated.{Bus, simulated, simulated_laws}
use dmopenarm.DmMotor
use dmopenarm.DmMotor.{motor_ids, init_data, send_zeros}
use dmopenarm.DmMotor.Rounds.{IsRest}
use dmopenarm.DmMotor.Devices
use dmopenarm.DmMotor.Devices.{
  Called, done, fails, Descriptor, Libusb, Shown, adapter, Listing, written, or_no_serial,
  read_serial, visit_all, visit,
}
use dmopenarm.DmMotor.Devices.Balance.{
  Held, context_more, list_more, handle_more, LibusbLaws, main-held,
}

-- An object that has the first two of the five motors only.
abbrev two : Bus
two = record {
  acts =
      record {
        motor_type = dmopenarm.Sdk.DmMotorType.dm4310;
        mode = dmopenarm.Sdk.DmControlMode.mit_mode;
        can_id = 1;
        mst_id = 0x11;
      }
      ∷ [];
  sent = [];
  zeroed = [];
  saved = [];
  slept = 0;
}

abbrev bus : Bus
bus = record { acts = init_data; sent = []; zeroed = []; saved = []; slept = 0 }

abbrev nap : Bus → Bus
nap b = record b { slept = suc b.slept }

nap-IsRest : IsRest simulated simulated_laws nap
nap-IsRest = record { same = λ c id. refl; quiet = λ c. refl }

-- A libusb that only counts what it holds: a device is its descriptor, and none can be opened but with
-- a serial number.
abbrev opened : ℕ → Held → Called (Unit {0}) × Held
opened zero h = (fails (codes "LIBUSB_ERROR_ACCESS"), h)
opened (suc n) h = (done tt, handle_more h)

abbrev one_less : ℕ → ℕ
one_less zero = zero
one_less (suc n) = n

abbrev counting : List Descriptor → Libusb Held Descriptor (Unit {0})
counting devices = record {
  init = λ h. (done tt, context_more h);
  get_device_list = λ h. (done devices, list_more h);
  get_device_descriptor = λ v h. (done v, h);
  open_device = λ v h. opened v.serial_index h;
  get_string_descriptor_ascii = λ handle i h. (done (codes "14AA"), h);
  close = λ handle h. record h { handles = one_less h.handles };
  free_device_list = λ h. record h { lists = one_less h.lists };
  exit = λ h. record h { contexts = one_less h.contexts };
}

opened-held :
    (n : ℕ) (h : Held)
    → (opened n h).1 ≡ dmopenarm.DmMotor.Devices.Balance.added handle_more (opened n h).0 h
opened-held zero h = refl
opened-held (suc n) h = refl

abbrev counting_laws : (devices : List Descriptor) → LibusbLaws (counting devices)
counting_laws devices = record {
  held = λ h. h;
  init_holds = λ h. refl;
  list_holds = λ h. refl;
  descriptor_holds = λ v h. refl;
  open_holds = λ v h. opened-held v.serial_index h;
  string_holds = λ handle i h. refl;
  close_holds = λ handle h x e. ap (λ (g : Held). record g { handles = one_less g.handles }) e;
  free_holds = λ h x e. ap (λ (g : Held). record g { lists = one_less g.lists }) e;
  exit_holds = λ h x e. ap (λ (g : Held). record g { contexts = one_less g.contexts }) e;
}

-- An adapter, a device of another kind and an adapter that cannot be opened.
abbrev devices : List Descriptor
devices =
    record { vendor = 0x34B7; product = 0x6877; serial_index = 3 }
    ∷ record { vendor = 0x1D6B; product = 0x0002; serial_index = 1 }
    ∷ record { vendor = 0x34B7; product = 0x6877; serial_index = 0 }
    ∷ []

abbrev nothing : Held
nothing = record { contexts = 0; lists = 0; handles = 0 }

main-held_example : (Devices.main (counting devices) nothing).usb ≡ nothing
main-held_example = main-held (counting devices) (counting_laws devices) nothing

-- The number of a device behind another one is written in base 16: device 10 is shown as device a.
abbrev tenth : Listing Held
tenth = record { usb = nothing; hex = true; output = [] }

tenth_number :
    (visit
      (counting [])
      10
      (record { vendor = 0x34B7; product = 0x6877; serial_index = 3 })
      tenth).output
    ≡ adapter (codes "a") (codes "34b7") (codes "6877") (codes "14AA") ∷ []
unfolding visit read_serial written or_no_serial to_hex codes
tenth_number = refl
