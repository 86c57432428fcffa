-- ===== src/MitControl.antt =====
-- dm_openarm/examples/arm_mit_control.cpp: the program that listens for command lines and moves the
-- targets of an arm. What a round of its loop reads from the FIFO, and how long it sleeps, is an
-- argument.
pub mod Lines
pub mod Handling
pub mod Targets
pub mod Moving
pub mod Driving
pub mod Fifo
pub mod Main
pub mod Ready
pub mod Success
pub mod Exits
pub mod Descriptors
pub mod Approaching
pub mod Settling
pub mod Homing
pub mod Stopping
pub mod Printed
pub mod InBounds
pub mod Indexing
pub mod Statuses
mod Tests
use dmopenarm.Base.{
  ℕ, suc, ◌+◌, Bool, true, false, List, [], ◌∷◌, ◌++◌, map, ◌==◌, if◌then◌else◌, get_or, set,
  Exception, invalid_argument, Result, ok, err,
}
use dmopenarm.Base.Outcome
use dmopenarm.Base.Outcome.{what}
use dmopenarm.Base.Action.{Action, ◌>>=◌, ◌>>◌}
use dmopenarm.Text.{Text, codes}
use dmopenarm.Double.{Double, zero_of}
use dmopenarm.Types.{MotorConfig, ArmConfig, MitCommand, MotorState}
use dmopenarm.Command.{
  MitControlCommandKind, status, move, home_one, home_all, stop, MitControlCommand,
  parse_mit_control_command,
}
use dmopenarm.Sdk.{Sdk}
use dmopenarm.Arm
use dmopenarm.Arm.{Arm}

-- A line ends at `c` if this is the newline; otherwise `c` is the first byte of what came out.
unfoldable line_before : ℕ → List Text × Text → List Text × Text
line_before c (lines, rest) = if c == 10 then ([] ∷ lines, rest) else into_first c lines rest
  where
    into_first : ℕ → List Text → Text → List Text × Text
    into_first c [] rest = ([], c ∷ rest)
    into_first c (line ∷ lines) rest = ((c ∷ line) ∷ lines, rest)

-- The loop of `read_lines` over `pending_`: the lines, and what stays pending.
unfoldable pub split_lines : Text → List Text × Text
unfolding line_before
split_lines [] = ([], [])
split_lines (c ∷ text) = line_before c (split_lines text)

-- `read_lines`, where `bytes` is what the descriptor held: the lines, and the new `pending_`.
unfoldable pub read_lines : Text → Text → List Text × Text
read_lines bytes pending = split_lines (pending ++ bytes)

abbrev pub unknown_motor : Exception
unknown_motor = invalid_argument (codes "unknown motor CAN ID")

unfoldable pub require_known_motor : ℕ → List MotorConfig → Result ℕ
require_known_motor can_id [] = err unknown_motor
require_known_motor can_id (m ∷ ms) =
    if m.can_id == can_id then ok can_id else require_known_motor can_id ms

unfoldable pub index_from : ℕ → ℕ → List MotorConfig → Result ℕ
index_from i can_id [] = err unknown_motor
index_from i can_id (m ∷ ms) = if m.can_id == can_id then ok i else index_from (i + 1) can_id ms

unfoldable pub motor_index : ℕ → List MotorConfig → Result ℕ
unfolding index_from
motor_index can_id motors = index_from 0 can_id motors

-- What the program writes.
pub data Output (D : Type 0) : Type 0 where
  received : Text → Output D
  status_of : List (MotorState D) → List D → Output D
  updated : ℕ → D → Output D
  homing : ℕ → D → Output D
  homing_all : Output D
  stopping : Output D
  rejected : Text → Output D
  usage : Text → Output D
  listening : Text → D → D → D → Output D
  interrupted : ℕ → Output D
  failed : Text → Output D

pub record MitControl (D C : Type 0) : Type 0 where
  pub arm : Arm C
  pub home_targets : List D
  pub requested_targets : List D
  pub active_targets : List D
  pub running : Bool
  pub output : List (Output D)

module _ {D : Type 0} ⦃d : Double D⦄ where
  abbrev pub default_kp : D
  default_kp = d.literal 8 1

  abbrev pub default_kd : D
  default_kd = d.literal 4 10

  abbrev pub max_target_velocity : D
  max_target_velocity = d.literal 6 10

  -- The default argument of `parse_mit_control_command`.
  abbrev pub max_delta : D
  max_delta = d.literal 10 100

  unfoldable pub approach_target : D → D → D → D
  approach_target current target step =
      if d.lt current (d.sub target step)
      then d.add current step
      else if d.lt (d.add target step) current
      then d.sub current step
      else target

  -- How far a target moves in one round, where the period is in milliseconds.
  abbrev pub step_of : ArmConfig → D
  step_of config = d.mul max_target_velocity (d.literal config.loop_period 1000)

  -- The loop over the motors: the new active targets.
  unfoldable pub approach_all : D → List D → List D → List D
  unfolding approach_target
  approach_all step (a ∷ as') (r ∷ rs) = approach_target a r step ∷ approach_all step as' rs
  approach_all step _ _ = []

  abbrev pub command_at : D → MitCommand D
  command_at target = record {
    kp = default_kp;
    kd = default_kd;
    q = target;
    dq = zero_of d;
    tau = zero_of d;
  }

module _ {D C : Type 0} where
  abbrev pub say : Output D → Action (MitControl D C) (Unit {0})
  say line s = (ok tt, record s { output = s.output ++ (line ∷ []) })

  -- The index of the motor, after both searches for it.
  unfoldable pub known_index : ℕ → Action (MitControl D C) ℕ
  known_index can_id s = (
    Outcome.◌>>=◌ (require_known_motor can_id s.arm.config.motors)
        λ _. motor_index can_id s.arm.config.motors,
    s,
  )

  unfoldable set_requested : ℕ → D → Action (MitControl D C) (Unit {0})
  set_requested index target s =
      (ok tt, record s { requested_targets = set s.requested_targets index target })

module _ {D F C H : Type 0} ⦃d : Double D⦄ (k : Sdk D F C H) where
  abbrev pub report : Result (List (MotorState D)) → Action (MitControl D C) (Unit {0})
  report (ok states) s = say (status_of states s.requested_targets) s
  report (err e) s = (err e, s)

  -- The `switch`.
  unfoldable pub obey : MitControlCommand D → Action (MitControl D C) (Unit {0})
  unfolding known_index set_requested
  obey c = by_kind c.kind
    where
      move_by : ℕ → Action (MitControl D C) (Unit {0})
      move_by index s =
          let target = d.add (get_or s.requested_targets index (zero_of d)) c.delta_rad in
          (set_requested index target >> say (updated c.can_id target)) s

      home_to : ℕ → Action (MitControl D C) (Unit {0})
      home_to index s =
          let target = get_or s.home_targets index (zero_of d) in
          (set_requested index target >> say (homing c.can_id target)) s

      by_kind : MitControlCommandKind → Action (MitControl D C) (Unit {0})
      by_kind status s = report (Arm.states k s.arm) s
      by_kind move s = (known_index c.can_id >>= move_by) s
      by_kind home_one s = (known_index c.can_id >>= home_to) s
      by_kind home_all s = say homing_all (record s { requested_targets = s.home_targets })
      by_kind stop s = say stopping (record s { running = false })

  -- One line: the body of the `try`.
  unfoldable pub try_line : Text → Action (MitControl D C) (Unit {0})
  unfolding obey
  try_line line s =
      ((λ t. (parse_mit_control_command line max_delta, t)) >>= λ c.
      (say (received line) >> obey c))
        s

  -- The `catch`: the program says why, and goes on.
  abbrev pub caught : Result (Unit {0}) × MitControl D C → MitControl D C
  caught (ok tt, s) = s
  caught (err e, s) = record s { output = s.output ++ (rejected (what e) ∷ []) }

  unfoldable pub handle_line : Text → MitControl D C → MitControl D C
  unfolding try_line what
  handle_line line s = caught (try_line line s)

  unfoldable pub handle_lines : List Text → MitControl D C → MitControl D C
  unfolding handle_line
  handle_lines [] s = s
  handle_lines (line ∷ lines) s = handle_lines lines (handle_line line s)

  -- The second half of a round: the targets move, and the arm is told.
  unfoldable pub drive : Action (MitControl D C) (Unit {0})
  unfolding approach_all
  drive s =
      let active = approach_all (step_of s.arm.config) s.active_targets s.requested_targets in
      let sent = Arm.send_mit_all k (map command_at active) s.arm in
      (sent.0, record s { active_targets = active; arm = sent.1 })

  -- The sleep until the end of the period.
  abbrev pub pause : ℕ → Action (MitControl D C) (Unit {0})
  pause left s = (ok tt, record s { arm = (Arm.sleep k left s.arm).1 })

  -- The loop, as far as it has been watched: for each round the lines that it reads, and the milliseconds
  -- that are left of its period when its work is done.
  unfoldable pub run : List (List Text × ℕ) → Action (MitControl D C) (Unit {0})
  unfolding handle_lines drive
  run [] s = (ok tt, s)
  run ((lines, left) ∷ rounds) s =
      let on = (drive >> (pause left >> run rounds)) (handle_lines lines s) in
      if s.running then on else (ok tt, s)

  -- The program before its loop, on a new arm.
  unfoldable pub begin_at : Result (List (MotorState D)) × Arm C → Result (MitControl D C)
  begin_at (err e, arm) = err e
  begin_at (ok states, arm) =
      let positions = map (λ s. s.position) states in
      ok (record {
        arm = arm;
        home_targets = positions;
        requested_targets = positions;
        active_targets = positions;
        running = true;
        output = [];
      })

  -- What the program does with the arm before its loop, and what the arm reports then.
  unfoldable pub begin_arm : ArmConfig → Action (Arm C) (List (MotorState D))
  begin_arm config = do
    Arm.connect k
    Arm.send_zero_mit_all k
    Arm.sleep k config.loop_period
    λ arm. (Arm.states k arm, arm)

  unfoldable pub begin : ArmConfig → Result (MitControl D C)
  unfolding begin_at begin_arm
  begin config = begin_at (begin_arm config (Arm.make config))
