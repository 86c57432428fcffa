-- ===== src/Controller.antt =====
-- dm_openarm/src/mit_loop_controller.cpp and dm_openarm/include/dm_openarm/mit_loop_controller.hpp: the controller that
-- sends the commands of an arm from a thread of its own. The methods that run at once are functions
-- here; what the two threads do, step by step, is Controller/Threads.antt.
pub mod Threads
pub mod Invariant
pub mod Reachable
pub mod Stopping
mod Tests
pub mod Commands
pub mod Sending
pub mod Failing
pub mod Outcome
pub mod Methods
use dmopenarm.Base.{
  ℕ, zero, suc, ◌+◌, ◌≡◌, Bool, not, Option, none, some, List, [], ◌∷◌, map, ◌==◌, if◌then◌else◌,
  length, replicate, set, Exception, invalid_argument, Result, ok, err,
}
use dmopenarm.Base.Action.{Action}
use dmopenarm.Text.{codes}
use dmopenarm.Double.{Double}
use dmopenarm.Types.{MitCommand, default_command}
use dmopenarm.Arm.{Arm}

-- Where the worker thread is. `at_send` holds its copy of the commands; `at_catch` is in the handler,
-- before the exception is stored, and `at_clear` behind that. A `finished` thread is joinable still,
-- an `absent` one is not.
pub data Worker (D : Type 0) : Type 0 where
  absent : Worker D
  at_test : Worker D
  at_copy : Worker D
  at_send : List (MitCommand D) → Worker D
  at_sleep : Worker D
  at_catch : Exception → Worker D
  at_clear : Worker D
  finished : Worker D

pub record Controller (D C : Type 0) : Type 0 where
  pub arm : Arm C
  pub can_ids : List ℕ
  pub commands : List (MitCommand D)
  pub running : Bool
  pub worker : Worker D
  pub worker_exception : Option Exception

abbrev pub unknown_can_id : Exception
unknown_can_id = invalid_argument (codes "unknown motor CAN ID")

abbrev pub command_mismatch : Exception
command_mismatch = invalid_argument (codes "MIT command count does not match motor count")

-- The loop of `motor_index`, at index `i`.
unfoldable pub index_from : ℕ → ℕ → List ℕ → Result ℕ
index_from i can_id [] = err unknown_can_id
index_from i can_id (x ∷ xs) = if x == can_id then ok i else index_from (i + 1) can_id xs

unfoldable pub motor_index : List ℕ → ℕ → Result ℕ
unfolding index_from
motor_index can_ids can_id = index_from 0 can_id can_ids

module _ {D C : Type 0} ⦃d : Double D⦄ where
  -- The constructor.
  unfoldable pub make : Arm C → Controller D C
  make arm = record {
    arm = arm;
    can_ids = map (λ m. m.can_id) arm.config.motors;
    commands = replicate (length arm.config.motors) default_command;
    running = Bool.false;
    worker = absent;
    worker_exception = none;
  }

module _ {D C : Type 0} where
  -- `set_command` once the index is known.
  unfoldable pub write_command :
      MitCommand D → Controller D C → Result ℕ → Result (Unit {0}) × Controller D C
  write_command command s (ok index) = (ok tt, record s { commands = set s.commands index command })
  write_command command s (err e) = (err e, s)

  unfoldable pub set_command : ℕ → MitCommand D → Action (Controller D C) (Unit {0})
  unfolding write_command motor_index
  set_command can_id command s = write_command command s (motor_index s.can_ids can_id)

  unfoldable pub set_all_commands : List (MitCommand D) → Action (Controller D C) (Unit {0})
  set_all_commands commands s =
      if not (length commands == length s.commands)
      then (err command_mismatch, s)
      else (ok tt, record s { commands = commands })
