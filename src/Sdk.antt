-- ===== src/Sdk.antt =====
-- What dm_openarm/src/backend/dm_serial_backend.cpp uses of the vendored motor library,
-- dm_openarm/third_party/damiao_sdk: the class `Motor_Control`, its shared motors, and `float`. The library is
-- a parameter. `C` is what a `Motor_Control` object and the hardware behind it hold at one moment,
-- `H` is a pointer to one of its motors. A call gives the moment after it; frames of the motors may
-- come in during any call, and during a sleep.
pub mod Simulated
pub mod Zeroing
use dmopenarm.Base.{
  ℕ, ◌<◌, ◌≡◌, Bool, ◌||◌, Option, none, some, List, [], ◌∷◌, ◌++◌, ◌==◌, if◌then◌else◌, Result, ok,
}
use dmopenarm.Base.Action.{Action}
use dmopenarm.Text.{Text}

pub data DmMotorType : Type 0 where
  dm3507 dm4310 dm4310_48v dm4340 dm4340_48v dm6006 dm6248 dm8006 dm8009 : DmMotorType
  dm10010l dm10010 dmh3510 dmh6215 dms3519 dmg6220 : DmMotorType

pub data DmControlMode : Type 0 where
  mit_mode pos_vel_mode vel_mode pos_force_mode : DmControlMode

pub record DmActData : Type 0 where
  pub motor_type : DmMotorType
  pub mode : DmControlMode
  pub can_id : ℕ
  pub mst_id : ℕ

-- What one `control_mit` asks of one motor.
pub record MitFrame (F : Type 0) : Type 0 where
  pub can_id : ℕ
  pub kp : F
  pub kd : F
  pub q : F
  pub dq : F
  pub tau : F

pub record Sdk (D F C H : Type 0) : Type 0 where
  -- `static_cast<float>`, and the conversion of a `float` to a `double`.
  pub to_float : D → F
  pub to_double : F → D
  -- The constructor: the two baud rates, the serial and the motors of the bus.
  pub construct : ℕ → ℕ → Text → List DmActData → Result C
  -- `getMotor`, where `none` is a null pointer.
  pub get_motor : C → ℕ → Option H
  pub control_mit : H → F → F → F → F → F → Action C (Unit {0})
  pub set_zero_position : H → Action C (Unit {0})
  pub save_motor_param : H → Action C (Unit {0})
  pub enable_all : Action C (Unit {0})
  pub get_position : C → H → F
  pub get_velocity : C → H → F
  pub get_tau : C → H → F
  pub get_time_interval : C → H → D
  -- `std::this_thread::sleep_for`, in milliseconds.
  pub sleep_for : ℕ → C → C

-- The first motor of the bus that has this number as its CAN ID or as its master ID: the library
-- registers each motor under both, and `insert` keeps the entry that is there.
unfoldable pub find_act : List DmActData → ℕ → Option DmActData
find_act [] id = none
find_act (a ∷ acts) id = if a.can_id == id || a.mst_id == id then some a else find_act acts id

-- The documented behaviour that the properties of the backend rest on, with two readings of the
-- library's state: the CAN ID of a motor, and the MIT frames that were sent, the oldest first.
pub record SdkLaws {D F C H : Type 0} (k : Sdk D F C H) : Type 0 where
  pub id_of : H → ℕ
  pub frames : C → List (MitFrame F)
  -- A constructed object finds its motors under both numbers.
  pub finds :
      (nom dat : ℕ) (serial : Text) (acts : List DmActData) (c : C) (a : DmActData) (id : ℕ)
      → k.construct nom dat serial acts ≡ ok c
      → find_act acts id ≡ some a
      → (h : H) × (k.get_motor c id ≡ some h) × (id_of h ≡ a.can_id)
  -- No call registers or drops a motor.
  pub control_mit_keeps :
      (h : H) (kp kd q dq tau : F) (c : C) (id : ℕ)
      → k.get_motor (k.control_mit h kp kd q dq tau c).1 id ≡ k.get_motor c id
  pub set_zero_position_keeps :
      (h : H) (c : C) (id : ℕ) → k.get_motor (k.set_zero_position h c).1 id ≡ k.get_motor c id
  pub save_motor_param_keeps :
      (h : H) (c : C) (id : ℕ) → k.get_motor (k.save_motor_param h c).1 id ≡ k.get_motor c id
  pub enable_all_keeps : (c : C) (id : ℕ) → k.get_motor (k.enable_all c).1 id ≡ k.get_motor c id
  pub sleep_for_keeps :
      (ms : ℕ) (c : C) (id : ℕ) → k.get_motor (k.sleep_for ms c) id ≡ k.get_motor c id
  -- `control_mit` for a motor of the object returns, and sends one frame to that motor.
  pub control_mit_returns :
      (h : H) (kp kd q dq tau : F) (c : C) (id : ℕ)
      → k.get_motor c id ≡ some h
      → (k.control_mit h kp kd q dq tau c).0 ≡ ok tt
  pub control_mit_sends :
      (h : H) (kp kd q dq tau : F) (c : C) (id : ℕ)
      → k.get_motor c id ≡ some h
      → frames (k.control_mit h kp kd q dq tau c).1
        ≡ frames c
          ++ (record { can_id = id_of h; kp = kp; kd = kd; q = q; dq = dq; tau = tau } ∷ [])
  -- A sleep sends no such frame.
  pub sleep_for_sends : (ms : ℕ) (c : C) → frames (k.sleep_for ms c) ≡ frames c
