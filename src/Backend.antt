-- ===== src/Backend.antt =====
-- dm_openarm/src/backend/dm_serial_backend.cpp and dm_openarm/include/dm_openarm/backend/dm_serial_backend.hpp: the owner
-- of the `Motor_Control` object. The methods are actions on its state.
pub mod Delivery
pub mod Registry
pub mod Keeps
pub mod History
pub mod Errors
pub mod Crossed
pub mod Feedback
pub mod Interface
pub mod Zeroing
mod Tests
use dmopenarm.Base.{
  ℕ, ◌≡◌, Bool, true, false, not, Option, none, some, List, [], ◌∷◌, ◌++◌, map, ◌==◌, if◌then◌else◌,
  length, replicate, Result, ok, err, Exception, runtime_error, invalid_argument,
}
use dmopenarm.Base.Action.{Action, pure, throw, throw_if, ◌>>=◌, ◌>>◌}
use dmopenarm.Base.Outcome
use dmopenarm.Text.{Text, codes}
use dmopenarm.Double.{Double}
use dmopenarm.Types.{MotorModel, MotorConfig, ArmConfig, MitCommand, MotorState, default_command}
use dmopenarm.Types
use dmopenarm.Sdk.{DmMotorType, DmActData, mit_mode, Sdk}
use dmopenarm.Sdk

pub record Backend (C : Type 0) : Type 0 where
  pub config : ArmConfig
  pub init_data : List DmActData
  pub control : Option C

abbrev pub not_connected : Exception
not_connected = runtime_error (codes "DmSerialBackend is not connected")

abbrev pub not_registered : Exception
not_registered = runtime_error (codes "motor is not registered")

abbrev pub count_mismatch : Exception
count_mismatch = invalid_argument (codes "MIT command count does not match motor count")

abbrev pub is_some {ℓ} : {A : Type ℓ} → Option A → Bool
is_some none = false
is_some (some _) = true

-- The `switch` has a case for each model, so the exception after it is never thrown.
unfoldable pub to_damiao_model : MotorModel → DmMotorType
to_damiao_model Types.MotorModel.dm4310 = Sdk.DmMotorType.dm4310
to_damiao_model Types.MotorModel.dm8009 = Sdk.DmMotorType.dm8009

-- One entry of `init_data_`.
abbrev pub act_data : MotorConfig → DmActData
act_data m = record {
  motor_type = to_damiao_model m.model;
  mode = mit_mode;
  can_id = m.can_id;
  mst_id = m.mst_id;
}

module _ {C : Type 0} where
  -- The constructor.
  unfoldable pub make : ArmConfig → Backend C
  make config = record { config = config; init_data = []; control = none }

  unfoldable pub connected : Backend C → Bool
  connected b = is_some b.control

  -- `control_.reset()`.
  unfoldable pub disconnect : Backend C → Backend C
  disconnect b = record b { control = none }

  -- The destructor.
  abbrev pub destroy : Backend C → Backend C
  destroy b = disconnect b

  -- What `if(!control_) throw …` guards: a part that works on the object.
  unfoldable pub on_control : {A : Type 0} → Action C A → Action (Backend C) A
  on_control act b = elim b.control [
    | none ↦ (err not_connected, b)
    | some c ↦ let (r, c') = act c in (r, record b { control = some c' })
  ]

module _ {D F C H : Type 0} ⦃d : Double D⦄ (k : Sdk D F C H) where
  -- `control_ = std::make_shared<…>(…)`: what a throwing constructor leaves.
  unfoldable pub install : Backend C → Result C → Result (Unit {0}) × Backend C
  install b (ok c) = (ok tt, record b { control = some c })
  install b (err e) = (err e, b)

  unfoldable pub connect : Action (Backend C) (Unit {0})
  unfolding install
  connect b = elim b.control [
    | some _ ↦ (ok tt, b)
    | none ↦
        let acts = map act_data b.config.motors in
        install (record b { init_data = acts })
          (k.construct b.config.nom_baud b.config.dat_baud b.config.usb_serial acts)
  ]

  -- `control_->control_mit(*motor, …)`, with the five casts.
  abbrev pub control : H → MitCommand D → Action C (Unit {0})
  control h m =
      k.control_mit h (k.to_float m.kp) (k.to_float m.kd) (k.to_float m.q) (k.to_float m.dq)
        (k.to_float m.tau)

  -- One round of the loop of `send_mit_all`.
  unfoldable pub send_one : MotorConfig → MitCommand D → Action C (Unit {0})
  send_one m command c = elim (k.get_motor c m.can_id) [
    | none ↦ (err not_registered, c)
    | some h ↦ control h command c
  ]

  -- The loop: motor and command at the same index. The two lists have one length there.
  unfoldable pub send_each : List MotorConfig → List (MitCommand D) → Action C (Unit {0})
  send_each (m ∷ ms) (command ∷ commands) = do send_one m command; send_each ms commands
  send_each _ _ = pure tt

  unfoldable pub send_mit_all : List (MitCommand D) → Action (Backend C) (Unit {0})
  unfolding on_control
  send_mit_all commands b =
      on_control
        (do
          throw_if (not (length commands == length b.config.motors)) count_mismatch
          send_each b.config.motors commands)
        b

  unfoldable pub send_zero_mit_all : Action (Backend C) (Unit {0})
  unfolding send_mit_all
  send_zero_mit_all b = send_mit_all (replicate (length b.config.motors) default_command) b

  abbrev pub sleep : ℕ → Action C (Unit {0})
  sleep ms c = (ok tt, k.sleep_for ms c)

  -- `if(persist)` of `set_zero`.
  unfoldable pub persist_zero : Bool → H → Action C (Unit {0})
  persist_zero false h = pure tt
  persist_zero true h = do k.save_motor_param h; sleep 300; k.enable_all; sleep 100

  unfoldable pub zero_motor : Bool → H → Action C (Unit {0})
  unfolding persist_zero
  zero_motor persist h = do k.set_zero_position h; sleep 100; persist_zero persist h

  -- `set_zero` after the test that the backend is connected.
  unfoldable pub zero_at : ℕ → Bool → Action C (Unit {0})
  zero_at can_id persist c = elim (k.get_motor c can_id) [
    | none ↦ (err (runtime_error (codes "motor CAN ID is not registered")), c)
    | some h ↦ zero_motor persist h c
  ]

  unfoldable pub set_zero : ℕ → Bool → Action (Backend C) (Unit {0})
  unfolding on_control zero_motor zero_at
  set_zero can_id persist = on_control (zero_at can_id persist)

  unfoldable pub set_zero_each : List MotorConfig → Bool → Action (Backend C) (Unit {0})
  set_zero_each [] persist = pure tt
  set_zero_each (m ∷ ms) persist = do set_zero m.can_id persist; set_zero_each ms persist

  unfoldable pub set_zero_all : Bool → Action (Backend C) (Unit {0})
  unfolding set_zero_each
  set_zero_all persist b = set_zero_each b.config.motors persist b

  -- One entry of the result of `states`.
  abbrev pub state_of : C → MotorConfig → H → MotorState D
  state_of c m h = record {
    can_id = m.can_id;
    mst_id = m.mst_id;
    position = k.to_double (k.get_position c h);
    velocity = k.to_double (k.get_velocity c h);
    torque = k.to_double (k.get_tau c h);
    feedback_interval_s = k.get_time_interval c h;
  }

  unfoldable pub state_one : C → MotorConfig → Result (MotorState D)
  state_one c m = elim (k.get_motor c m.can_id) [
    | none ↦ err not_registered
    | some h ↦ ok (state_of c m h)
  ]

  unfoldable pub states_each : C → List MotorConfig → Result (List (MotorState D))
  states_each c [] = ok []
  states_each c (m ∷ ms) =
      Outcome.◌>>=◌ (state_one c m) λ s. Outcome.◌>>=◌ (states_each c ms) λ ss. ok (s ∷ ss)

  unfoldable pub states : Backend C → Result (List (MotorState D))
  unfolding states_each state_one
  states b = elim b.control [ none ↦ err not_connected | some c ↦ states_each c b.config.motors ]
