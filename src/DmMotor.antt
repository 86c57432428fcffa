-- ===== src/DmMotor.antt =====
-- resources/DMmotor/src/main.cpp: the program that sends five motors the zero command, round after
-- round, and writes what they report. What the hardware does while a round sleeps is an argument. The line that the signal handler writes is left out.
pub mod Rounds
pub mod Devices
mod Tests
use dmopenarm.Base.{ℕ, Bool, Option, none, some, List, [], ◌∷◌, ◌++◌, Exception, Result, ok, err}
use dmopenarm.Base.Outcome.{what}
use dmopenarm.Base.Action.{Action, pure, ◌>>=◌, ◌>>◌}
use dmopenarm.Text.{Text, codes}
use dmopenarm.Double.{Double, zero_of}
use dmopenarm.Sdk.{Sdk, DmMotorType, dm4310, dm8009, DmActData, mit_mode}

abbrev pub motor_ids : List ℕ
motor_ids = 0x01 ∷ 0x02 ∷ 0x03 ∷ 0x04 ∷ 0x05 ∷ []

abbrev entry : DmMotorType → ℕ → ℕ → DmActData
entry motor_type can_id mst_id = record {
  motor_type = motor_type;
  mode = mit_mode;
  can_id = can_id;
  mst_id = mst_id;
}

abbrev pub init_data : List DmActData
init_data =
    entry dm4310 0x01 0x11
    ∷ entry dm4310 0x02 0x12
    ∷ entry dm4310 0x03 0x13
    ∷ entry dm8009 0x04 0x14
    ∷ entry dm8009 0x05 0x15
    ∷ []

abbrev pub usb_serial : Text
usb_serial = codes "14AA044B241402B10DDBDAFE448040BB"

-- What the program writes: the position, the velocity, the torque and the interval of a motor, the line
-- at its end, or what the handler says.
pub data Written (D F : Type 0) : Type 0 where
  reported : ℕ → F → F → F → D → Written D F
  exited_safely : Written D F
  complained : Text → Written D F

pub record Watch (D F C : Type 0) : Type 0 where
  pub control : C
  pub output : List (Written D F)

pub record Left (D F : Type 0) : Type 0 where
  pub code : ℕ
  pub output : List (Written D F)

module _ {D F C H : Type 0} ⦃d : Double D⦄ (k : Sdk D F C H) where
  abbrev pub zero : F
  zero = k.to_float (zero_of d)

  -- The first loop of a round: a motor that the object does not have is passed over.
  unfoldable pub send_zeros : List ℕ → Action C (Unit {0})
  send_zeros [] c = (ok tt, c)
  send_zeros (id ∷ ids) c = elim (k.get_motor c id) [
    | none ↦ send_zeros ids c
    | some h ↦ (k.control_mit h zero zero zero zero zero >> send_zeros ids) c
  ]

  -- The second loop.
  unfoldable pub reports : List ℕ → C → List (Written D F)
  reports [] c = []
  reports (id ∷ ids) c = elim (k.get_motor c id) [
    | none ↦ reports ids c
    | some h ↦
        reported id (k.get_position c h) (k.get_velocity c h) (k.get_tau c h)
          (k.get_time_interval c h)
        ∷ reports ids c
  ]

  abbrev pub on_control : Action C (Unit {0}) → Action (Watch D F C) (Unit {0})
  on_control act w = let (r, c) = act w.control in (r, record w { control = c })

  abbrev pub tell : List (Written D F) → Action (Watch D F C) (Unit {0})
  tell lines w = (ok tt, record w { output = w.output ++ lines })

  -- The sleep until the end of the period.
  abbrev pub wait : (C → C) → Action (Watch D F C) (Unit {0})
  wait rest w = (ok tt, record w { control = rest w.control })

  unfoldable pub round : (C → C) → Action (Watch D F C) (Unit {0})
  unfolding send_zeros reports
  round rest = do
    on_control (send_zeros motor_ids)
    λ w. tell (reports motor_ids w.control) w
    wait rest

  -- The rounds up to the first that finds `running` clear.
  unfoldable pub rounds : List (C → C) → Action (Watch D F C) (Unit {0})
  unfolding round
  rounds [] = pure tt
  rounds (rest ∷ rests) = do round rest; rounds rests

  abbrev pub finish : Result (Unit {0}) × Watch D F C → Left D F
  finish (ok _, w) = record { code = 0; output = w.output ++ (exited_safely ∷ []) }
  finish (err e, w) = record {
    code = 1;
    output =
        w.output ++ (complained (codes "Error: hardware interface exception: " ++ what e) ∷ []);
  }

  abbrev pub watched : List (C → C) → Result C → Left D F
  watched rests (ok c) = finish (rounds rests (record { control = c; output = [] }))
  watched rests (err e) = record {
    code = 1;
    output = complained (codes "Error: hardware interface exception: " ++ what e) ∷ [];
  }

  unfoldable pub main : List (C → C) → Left D F
  unfolding rounds
  main rests = watched rests (k.construct 1_000_000 1_000_000 usb_serial init_data)
