-- ===== src/Controller/Tests.antt =====
-- The properties of dm_openarm/src/mit_loop_controller.cpp at concrete inputs.
use dmopenarm.Base.{
  map, true, ◌++◌, none, err, ℕ, ◌+◌, if◌then◌else◌, ◌≡◌, ◌≤◌, refl, arith, some, [], ◌∷◌, false,
  ok,
}
use dmopenarm.Base.Int.{pos}
use dmopenarm.Text.{codes}
use dmopenarm.Double.Fixed
use dmopenarm.Double.Fixed.{Fixed, milli, fixed}
use dmopenarm.Types.{MotorConfig, ArmConfig, MitCommand, mit, default_command}
use dmopenarm.Types
use dmopenarm.Sdk.Simulated.{Bus, simulated, simulated_laws}
use dmopenarm.Backend.{not_connected, act_data}
use dmopenarm.Backend
use dmopenarm.Sdk.{find_act}
use dmopenarm.Arm
use dmopenarm.Arm.{Arm}
use dmopenarm.Controller.{absent, at_send, at_copy, finished, Controller, make, set_command}
use dmopenarm.Controller.Threads.{
  fresh, stopped, begin_stop, stop_join, System, is_alive, worker_step, work, begin_start, join,
  goes_on, client_step, works, starts, continues, sets, Reach, here, next, init, with_controller,
}
use dmopenarm.Controller.Invariant.{IsSound}
use dmopenarm.Controller.Reachable.{run-IsSound}
use dmopenarm.Controller.Stopping.{Waits, waits, then_works, then_sets, worker_steps, Waits-ends}
use dmopenarm.Controller.Outcome.{finish, stop_end, start_end, zeroed, finish-stop}
use dmopenarm.Controller.Commands.{set_command-known}
use dmopenarm.Controller.Sending.{steps, at_place, held, SendsIn, newest-SendsIn}
use dmopenarm.Controller.Failing.{stop-rethrows}
use dmopenarm.Program.Live.{IsLive}
use dmopenarm.Backend.Delivery.{frames_for}

abbrev motor_at : ℕ → MotorConfig
motor_at can_id = record {
  name = codes "motor";
  model = Types.MotorModel.dm4310;
  mode = mit;
  can_id = can_id;
  mst_id = can_id;
}

abbrev config : ArmConfig
config = record {
  usb_serial = codes "14AA044B";
  nom_baud = 1_000_000;
  dat_baud = 1_000_000;
  loop_period = 1;
  motors = motor_at 1 ∷ motor_at 5 ∷ [];
}

abbrev torque : ℕ → MitCommand Fixed
torque n = record (default_command) { tau = milli (pos n) }

abbrev idle : Controller Fixed Bus
idle = make (Arm.make config)

set_command-known_example :
    set_command 5 (torque 7) idle
    ≡ (ok tt, record idle { commands = default_command ∷ torque 7 ∷ [] })
unfolding make Arm.make
set_command-known_example =
    set_command-known idle 5 (torque 7) (1 ∷ []) [] (default_command ∷ []) [] default_command refl
      (λ e. absurd (omega (arith, e)), tt) refl refl

-- The worker met an exception, which `stop` throws.
abbrev failed : Controller Fixed Bus
failed = record idle { worker = finished; worker_exception = some not_connected }

finish-stop_example :
    finish simulated 3 (record { controller = failed; client = stop_join false })
    ≡ stop_end simulated failed (zeroed simulated false failed.arm)
finish-stop_example = finish-stop simulated failed false refl

-- `stop` came while the worker was at its copy.
abbrev stopping : Controller Fixed Bus
stopping = record idle { worker = at_copy }

abbrev set_meanwhile : Controller Fixed Bus
set_meanwhile = (set_command 5 (torque 7) (worker_step simulated stopping)).1

waits_for : Waits simulated stopping set_meanwhile
unfolding worker_step work
waits_for = then_sets 5 (torque 7) (then_works waits refl)

Waits-ends_example :
    worker_steps simulated waits_for + (if is_alive set_meanwhile.worker then 1 else 0) ≤ 4
unfolding make
Waits-ends_example = Waits-ends simulated waits_for refl

-- A start, a command, and the worker's first step.
abbrev running : System Fixed Bus
running = start_end simulated idle

abbrev commanded : System Fixed Bus
commanded = with_controller running (set_command 5 (torque 7) running.controller).1

abbrev tested : System Fixed Bus
tested = with_controller commanded (worker_step simulated commanded.controller)

tested_reached : Reach simulated (init simulated (Arm.make config)) tested
unfolding begin_start client_step goes_on join make set_command dmopenarm.Double.Fixed.le Arm.make
tested_reached =
    next
      (next
        (next (next (next here (starts (milli (pos 1)) refl refl)) (continues refl))
          (continues refl))
        (sets 5 (torque 7) refl))
      (works refl refl)

run-IsSound_example : IsSound tested
run-IsSound_example = run-IsSound simulated (Arm.make config) tested tested_reached

-- The worker holds a copy of commands that were replaced since.
abbrev bus : Bus
bus = record { acts = map act_data config.motors; sent = []; zeroed = []; saved = []; slept = 0 }

abbrev overtaken : Controller Fixed Bus
overtaken = record idle {
  arm = record {
    config = config;
    backend = record { config = config; init_data = []; control = some bus };
  };
  commands = torque 7 ∷ torque 8 ∷ [];
  running = true;
  worker = at_send (default_command ∷ torque 3 ∷ []);
}

overtaken-IsLive : IsLive simulated simulated_laws config.motors overtaken.arm.backend bus
unfolding find_act Backend.to_damiao_model
overtaken-IsLive = record {
  connected = refl;
  motors = refl;
  registered = (
    record { handle = act_data (motor_at 1); found = refl; own = refl },
    (record { handle = act_data (motor_at 5); found = refl; own = refl }, tt),
  );
}

newest-SendsIn_example :
    (n : ℕ) × (n ≤ 5)
    × SendsIn simulated simulated_laws config.motors n overtaken overtaken bus (
        held simulated simulated_laws config.motors overtaken.worker
        ++ frames_for simulated simulated_laws config.motors overtaken.commands)
newest-SendsIn_example =
    newest-SendsIn simulated simulated_laws config.motors overtaken bus overtaken-IsLive refl refl
      refl refl

send_fails :
    (Arm.send_mit_all simulated (torque 7 ∷ []) overtaken.arm).0 ≡ err Backend.count_mismatch
unfolding Arm.send_mit_all Backend.send_mit_all Backend.on_control
send_fails = refl

stop-rethrows_example :
    finish simulated 3 (
      begin_stop simulated (record {
        controller = steps simulated 3 (at_place (at_send (torque 7 ∷ [])) overtaken);
        client = fresh;
      }))
    ≡ record {
      controller = record overtaken {
        arm = (Arm.send_mit_all simulated (torque 7 ∷ []) overtaken.arm).1;
        worker = absent;
        running = false;
        worker_exception = none;
      };
      client = stopped (err Backend.count_mismatch);
    }
stop-rethrows_example =
    stop-rethrows simulated overtaken (torque 7 ∷ []) Backend.count_mismatch fresh send_fails
