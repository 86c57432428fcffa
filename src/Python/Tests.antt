-- ===== src/Python/Tests.antt =====
-- The properties of dm_openarm/python/dm_openarm/arm.py at concrete inputs.
use dmopenarm.Base.{◌≡◌, refl, true, false, some, [], ◌∷◌, map, ok, err}
use dmopenarm.Text.{codes}
use dmopenarm.Double.Fixed.{Fixed, fixed}
use dmopenarm.Types.{MotorConfig, ArmConfig, MitCommand, mit, default_command}
use dmopenarm.Types
use dmopenarm.Sdk.Simulated.{Bus, simulated}
use dmopenarm.Backend.{act_data}
use dmopenarm.Backend
use dmopenarm.Arm
use dmopenarm.Controller.{Controller, at_sleep, at_send, finished, make}
use dmopenarm.Controller.Threads.{System, started}
use dmopenarm.Controller.Sending.{steps, at_place}
use dmopenarm.Python.Package.{disable}
use dmopenarm.Python.Disabling.{IsQuiet, Ends, disable-IsQuiet, disable-silent}

abbrev config : ArmConfig
config = record {
  usb_serial = codes "14AA044B";
  nom_baud = 1_000_000;
  dat_baud = 1_000_000;
  loop_period = 1;
  motors =
      record {
        name = codes "joint";
        model = Types.MotorModel.dm4310;
        mode = mit;
        can_id = 1;
        mst_id = 17;
      }
      ∷ [];
}

abbrev looping : Controller Fixed Bus
looping = record (make (Arm.make config)) {
  arm = record {
    config = config;
    backend = record {
      config = config;
      init_data = [];
      control = some (record {
        acts = map act_data config.motors;
        sent = [];
        zeroed = [];
        saved = [];
        slept = 0;
      });
    };
  };
  running = true;
  worker = at_sleep;
}

abbrev in_loop : System Fixed Bus
in_loop = record { controller = looping; client = started (ok tt) }

disable-IsQuiet_example :
    IsQuiet (disable simulated 2 in_loop).1
    × Ends (disable simulated 2 in_loop).0 (disable simulated 2 in_loop).1.controller.arm
disable-IsQuiet_example = disable-IsQuiet simulated 2 in_loop refl

no_commands_fail : (Arm.send_mit_all simulated [] looping.arm).0 ≡ err Backend.count_mismatch
unfolding Arm.send_mit_all Backend.send_mit_all Backend.on_control
no_commands_fail = refl

disable-silent_example :
    disable simulated 0 (record {
      controller = steps simulated 3 (at_place (at_send []) looping);
      client = started (ok tt);
    })
    ≡ (
      ok tt,
      record {
        controller = record looping {
          arm = Arm.disable (Arm.send_mit_all simulated [] looping.arm).1;
          worker = finished;
          running = false;
          worker_exception = some Backend.count_mismatch;
        };
        client = started (ok tt);
      },
    )
disable-silent_example =
    disable-silent simulated looping [] Backend.count_mismatch (started (ok tt)) 0 no_commands_fail
