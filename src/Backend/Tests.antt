-- ===== src/Backend/Tests.antt =====
-- Runs of dm_openarm/src/backend/dm_serial_backend.cpp over the simulated bus, and its properties at concrete inputs.
use dmopenarm.Base.{ℕ, ◌≡◌, ◌↔◌, refl, arith, some, List, [], ◌∷◌, false, ok, map}
use dmopenarm.Base.Int.{pos}
use dmopenarm.Text.{codes}
use dmopenarm.Double.Fixed.{Fixed, milli, fixed}
use dmopenarm.Types.{MotorConfig, ArmConfig, MitCommand, MotorState, mit}
use dmopenarm.Types
use dmopenarm.Sdk.{find_act, MitFrame}
use dmopenarm.Sdk.Simulated.{Bus, simulated, simulated_laws}
use dmopenarm.Backend.{
  Backend, make, connect, disconnect, install, act_data, on_control, send_mit_all,
  send_zero_mit_all, set_zero, states, states_each, state_one,
}
use dmopenarm.Backend.Delivery.{Sends, frame_to, frames_for}
use dmopenarm.Backend.History.{
  Call, connects, sends_zero, zeroes, disconnects, after, run, run-Sends,
}
use dmopenarm.Backend.Crossed.{crossed_misdelivers}
use dmopenarm.Backend.Interface
use dmopenarm.Backend.Interface.{Request, serial, perform_all}
use dmopenarm.Backend.Interface.Link.{down, link_perform_all}
use dmopenarm.Backend.Interface.Agreeing.{Represents}
use dmopenarm.Backend.Interface.Refines.{serial-refines}
use dmopenarm.Backend.Feedback.{Reports, states_iff}

abbrev motor_at : ℕ → ℕ → MotorConfig
motor_at can_id mst_id = record {
  name = codes "motor";
  model = Types.MotorModel.dm4310;
  mode = mit;
  can_id = can_id;
  mst_id = mst_id;
}

abbrev arm_of : List MotorConfig → ArmConfig
arm_of motors = record {
  usb_serial = codes "14AA044B";
  nom_baud = 1_000_000;
  dat_baud = 1_000_000;
  loop_period = 1;
  motors = motors;
}

abbrev two : ArmConfig
two = arm_of (motor_at 1 0x11 ∷ motor_at 5 0x15 ∷ [])

abbrev torque : ℕ → MitCommand Fixed
torque n = record {
  kp = milli (pos 0);
  kd = milli (pos 0);
  q = milli (pos 0);
  dq = milli (pos 0);
  tau = milli (pos n);
}

abbrev bus_of : List MotorConfig → Bus
bus_of motors = record { acts = map act_data motors; sent = []; zeroed = []; saved = []; slept = 0 }

abbrev on_bus : ArmConfig → List MotorConfig → Backend Bus
on_bus config motors = record { config = config; init_data = []; control = some (bus_of motors) }

abbrev crossed : ArmConfig
crossed = arm_of (motor_at 1 2 ∷ motor_at 2 3 ∷ [])

crossed_connected : (connect simulated (make crossed)).1.control ≡ some (bus_of crossed.motors)
unfolding connect make install
crossed_connected = refl

crossed_misdelivers_example :
    (c' : Bus) × (tail : List (MitFrame Fixed)) × ((send_mit_all simulated
        (torque 7 ∷ torque 9 ∷ [])
        (connect simulated (make crossed)).1).1.control
      ≡ some c')
    × (c'.sent
        ≡ frame_to simulated simulated_laws 1 (torque 7)
          ∷ frame_to simulated simulated_laws 1 (torque 9)
          ∷ tail)
crossed_misdelivers_example =
    crossed_misdelivers simulated simulated_laws crossed (motor_at 1 2) (motor_at 2 3) [] (torque 7)
      (torque 9) [] (bus_of crossed.motors) refl refl refl crossed_connected

abbrev calls : List (Call Fixed)
calls = sends_zero ∷ connects ∷ zeroes 5 false ∷ disconnects ∷ connects ∷ []

run-calls : (run simulated simulated_laws (make two) calls).control ≡ some (bus_of two.motors)
unfolding run after connect make install disconnect set_zero on_control send_zero_mit_all
    send_mit_all
run-calls = refl

run-Sends_example :
    Sends simulated simulated_laws
      (run simulated simulated_laws (make two) calls)
      (bus_of two.motors)
      (frames_for simulated simulated_laws two.motors (torque 7 ∷ torque 9 ∷ []))
      (send_mit_all simulated
        (torque 7 ∷ torque 9 ∷ [])
        (run simulated simulated_laws (make two) calls))
run-Sends_example =
    run-Sends simulated simulated_laws two calls (torque 7 ∷ torque 9 ∷ []) (bus_of two.motors)
      ((λ e. absurd (omega (arith, e)), tt), (tt, tt))
      ((λ e. absurd (omega (arith, e)), tt), (tt, tt)) run-calls refl

abbrev at_rest : ℕ → ℕ → MotorState Fixed
at_rest can_id mst_id = record {
  can_id = can_id;
  mst_id = mst_id;
  position = milli (pos 0);
  velocity = milli (pos 0);
  torque = milli (pos 0);
  feedback_interval_s = milli (pos 1);
}

states-two : states simulated (on_bus two two.motors) ≡ ok (at_rest 1 0x11 ∷ at_rest 5 0x15 ∷ [])
unfolding states states_each state_one find_act
states-two = refl

states_iff_example :
    (states simulated (on_bus two two.motors) ≡ ok (at_rest 1 0x11 ∷ at_rest 5 0x15 ∷ [])) ↔ (
      (c : Bus) × (some (bus_of two.motors) ≡ some c)
      × Reports simulated c two.motors (at_rest 1 0x11 ∷ at_rest 5 0x15 ∷ []))
states_iff_example =
    states_iff simulated (on_bus two two.motors) (at_rest 1 0x11 ∷ at_rest 5 0x15 ∷ [])

abbrev requests : List (Request Fixed)
requests =
    Interface.sends_zero
    ∷ Interface.connects
    ∷ Interface.sends (torque 7 ∷ torque 9 ∷ [])
    ∷ Interface.reads_states
    ∷ Interface.sends (torque 7 ∷ [])
    ∷ []

serial-refines_example :
    let r = perform_all (serial simulated) requests (make two) in
    let s = link_perform_all simulated simulated_laws two requests down in
    (r.0 ≡ s.0)
    × ((serial simulated).connected r.1 ≡ s.1.up)
    × Represents simulated simulated_laws two r.1 s.1
serial-refines_example =
    serial-refines simulated simulated_laws two requests
      ((λ e. absurd (omega (arith, e)), tt), (tt, tt))
      ((λ e. absurd (omega (arith, e)), tt), (tt, tt))
