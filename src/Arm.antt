-- ===== src/Arm.antt =====
-- dm_openarm/src/dm_arm.cpp and dm_openarm/include/dm_openarm/dm_arm.hpp: the configuration of an arm and its backend.
pub mod Methods
use dmopenarm.Base.{ℕ, ◌≡◌, Bool, Option, none, some, List, Result, ok}
use dmopenarm.Base.Action.{Action}
use dmopenarm.Double.{Double}
use dmopenarm.Types.{ArmConfig, MitCommand, MotorState}
use dmopenarm.Sdk.{Sdk}
use dmopenarm.Backend as Serial
use dmopenarm.Backend.{Backend}

pub record Arm (C : Type 0) : Type 0 where
  pub config : ArmConfig
  pub backend : Backend C

module _ {C : Type 0} where
  -- The constructor: the backend is made with a copy of the configuration.
  unfoldable pub make : ArmConfig → Arm C
  unfolding Serial.make
  make config = record { config = config; backend = Serial.make config }

  -- A method of the backend as a method of the arm.
  abbrev pub on_backend : {A : Type 0} → Action (Backend C) A → Action (Arm C) A
  on_backend act a = let (r, b) = act a.backend in (r, record a { backend = b })

  unfoldable pub disable : Arm C → Arm C
  unfolding Serial.disconnect
  disable a = record a { backend = Serial.disconnect a.backend }

  unfoldable pub connected : Arm C → Bool
  unfolding Serial.connected
  connected a = Serial.connected a.backend

module _ {D F C H : Type 0} ⦃d : Double D⦄ (k : Sdk D F C H) where
  unfoldable pub connect : Action (Arm C) (Unit {0})
  connect = on_backend (Serial.connect k)

  unfoldable pub send_mit_all : List (MitCommand D) → Action (Arm C) (Unit {0})
  send_mit_all commands = on_backend (Serial.send_mit_all k commands)

  unfoldable pub send_zero_mit_all : Action (Arm C) (Unit {0})
  send_zero_mit_all = on_backend (Serial.send_zero_mit_all k)

  unfoldable pub set_zero : ℕ → Bool → Action (Arm C) (Unit {0})
  set_zero can_id persist = on_backend (Serial.set_zero k can_id persist)

  unfoldable pub set_zero_all : Bool → Action (Arm C) (Unit {0})
  set_zero_all persist = on_backend (Serial.set_zero_all k persist)

  unfoldable pub states : Arm C → Result (List (MotorState D))
  states a = Serial.states k a.backend

  -- What the motors of a connected arm report while the caller sleeps.
  abbrev pub rest : ℕ → Option C → Option C
  rest ms none = none
  rest ms (some c) = some (k.sleep_for ms c)

  -- `std::this_thread::sleep_for` of a program that has an arm.
  abbrev pub sleep : ℕ → Action (Arm C) (Unit {0})
  sleep ms = on_backend λ b. (ok tt, record b { control = rest ms b.control })

-- There is no arm any more, or it has no connection.
abbrev pub NoConnection : {C : Type 0} → Option (Arm C) → Type 0
NoConnection none = Unit
NoConnection (some a) = a.backend.control ≡ none
