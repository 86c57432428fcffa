-- ===== src/MitControl/Tests.antt =====
-- The properties of dm_openarm/examples/arm_mit_control.cpp at concrete inputs.
use dmopenarm.Base.{
  length, ◌<◌, ◌*◌, ◌==◌, ==_refl, ◌∙◌, if◌then◌else◌, ap, arith, replicate, ◌+◌, map, some, ℕ, ◌≡◌,
  ◌↔◌, refl, List, [], ◌∷◌, ◌++◌, true, All, ok, err,
}
use dmopenarm.Base.Int.{pos}
use dmopenarm.Text.{Text, codes}
use dmopenarm.Text.Stoul.{stoul}
use dmopenarm.Text.Tokens.{split_tokens}
use dmopenarm.Command.{parse_mit_control_command, parse_can_id, parse_delta, require_arg_count}
use dmopenarm.Double.Fixed.{Fixed, milli, fixed, stod, lt, abs}
use dmopenarm.Types.{MotorConfig, ArmConfig, mit}
use dmopenarm.Types
use dmopenarm.Sdk.{find_act}
use dmopenarm.Sdk.Simulated.{Bus, simulated, simulated_laws}
use dmopenarm.Backend
use dmopenarm.Arm
use dmopenarm.MitControl.{
  received, updated, Output, MitControl, split_lines, read_lines, try_line, handle_line, begin,
  begin_arm, begin_at, run,
}
use dmopenarm.MitControl.{obey, known_index, require_known_motor, unknown_motor}
use dmopenarm.MitControl.Lines.{OneLine, unsplit, read_lines_iff}
use dmopenarm.MitControl.Handling.{handle_line-rejected}
use dmopenarm.MitControl.{drive, command_at}
use dmopenarm.MitControl.Driving.{pulls, drive-Sends}
use dmopenarm.Backend.{act_data}
use dmopenarm.Backend.Delivery.{Sends}
use dmopenarm.Arm.{NoConnection}
use dmopenarm.Loader.Fixture.{files, two_motors}
use dmopenarm.Loader.Runs.{arm_of, first_motor, last_motor, load_two}
use dmopenarm.MitControl.Fifo.{Posix, FifoReader, open_fifo}
use dmopenarm.MitControl.Main.{command_fifo, control_main}
use dmopenarm.MitControl.Success.{control_main-code}
use dmopenarm.MitControl.Ready.{IsReady}
use dmopenarm.MitControl.Approaching.{Near}
use dmopenarm.Double.Millionths.{rounding_fixed}
use dmopenarm.MitControl.Settling.{quiet, run-settles}
use dmopenarm.MitControl.Homing.{AllMovedBy, drive-step, home_all-settles}
use dmopenarm.Command.Grammar.{IsDelta}
use dmopenarm.Text.Tokens.{is_space}
use dmopenarm.Text.Tokens.Words.{IsWord}
use dmopenarm.MitControl
use dmopenarm.MitControl.{max_delta, handle_lines}
use dmopenarm.MitControl.Stopping.{run-stops}
use dmopenarm.MitControl.InBounds.{IsPrinted}
use dmopenarm.MitControl.Indexing.{known_index-InBounds}
use dmopenarm.MitControl.Statuses.{control_main-prints}
use dmopenarm.MitControl.Moving.{handle_line-move_line}
use dmopenarm.Command.Printed.{move_line}
use dmopenarm.Text.Print.{to_string}
use dmopenarm.MitControl.Descriptors.{PosixLaws, control_main-closes}

read_two :
    read_lines (codes "tus\nmove 1 0\nst") (codes "sta")
    ≡ (codes "status" ∷ codes "move 1 0" ∷ [], codes "st")
unfolding read_lines split_lines codes
read_two = refl

read_lines_iff_example :
    (read_lines (codes "tus\nst") (codes "sta") ≡ (codes "status" ∷ [], codes "st")) ↔ (
      All OneLine (codes "status" ∷ [])
      × OneLine (codes "st")
      × (unsplit (codes "status" ∷ [], codes "st") ≡ codes "sta" ++ codes "tus\nst"))
read_lines_iff_example =
    read_lines_iff (codes "sta") (codes "tus\nst") (codes "status" ∷ []) (codes "st")

abbrev motor_at : ℕ → ℕ → MotorConfig
motor_at can_id mst_id = record {
  name = codes "motor";
  model = Types.MotorModel.dm4310;
  mode = mit;
  can_id = can_id;
  mst_id = mst_id;
}

abbrev config : ArmConfig
config = record {
  usb_serial = codes "14AA044B";
  nom_baud = 1_000_000;
  dat_baud = 1_000_000;
  loop_period = 1;
  motors = motor_at 1 0x11 ∷ motor_at 5 0x15 ∷ [];
}

abbrev started : MitControl Fixed Bus
started = record {
  arm = (begin_arm simulated config (Arm.make config)).1;
  home_targets = milli (pos 0) ∷ milli (pos 0) ∷ [];
  requested_targets = milli (pos 0) ∷ milli (pos 0) ∷ [];
  active_targets = milli (pos 0) ∷ milli (pos 0) ∷ [];
  running = true;
  output = [];
}

begins : begin simulated config ≡ ok started
unfolding begin begin_arm begin_at Arm.make Arm.connect Arm.send_zero_mit_all Arm.states
    Backend.make Backend.connect Backend.send_zero_mit_all Backend.on_control Backend.states
    Backend.states_each Backend.state_one Backend.install Backend.to_damiao_model Backend.send_each
    Backend.send_one Backend.send_mit_all find_act
begins = refl

abbrev bus : Bus
bus = record { acts = map act_data config.motors; sent = []; zeroed = []; saved = []; slept = 0 }

abbrev ready : MitControl Fixed Bus
ready = record started {
  arm = record {
    config = config;
    backend = record { config = config; init_data = []; control = some bus };
  };
  requested_targets = milli (pos 0) ∷ milli (pos 50) ∷ [];
}

drive-Sends_example :
    Sends simulated simulated_laws ready.arm.backend bus
      (pulls simulated simulated_laws config.motors (drive simulated ready).1.active_targets)
      ((drive simulated ready).0, (drive simulated ready).1.arm.backend)
unfolding find_act Backend.to_damiao_model
drive-Sends_example =
    drive-Sends simulated simulated_laws ready bus refl
      (
        record { handle = act_data (motor_at 1 0x11); found = refl; own = refl },
        (record { handle = act_data (motor_at 5 0x15); found = refl; own = refl }, tt),
      )
      (record { home = refl; requested = refl; active = refl })

abbrev two_lines : List (List Text × ℕ)
two_lines = (codes "move 5 0.05" ∷ codes "spin" ∷ [], 1) ∷ ([], 0) ∷ []

-- The targets after a move of one motor, a line that is no command and one round more.
abbrev moved : MitControl Fixed Bus
moved = (run simulated two_lines started).1

unknown_line : (try_line simulated (codes "move 9 0.05") started).0 ≡ err unknown_motor
unfolding try_line obey known_index require_known_motor Arm.make begin_arm Arm.connect
    Arm.send_zero_mit_all Backend.make Backend.connect Backend.send_zero_mit_all Backend.on_control
    Backend.install parse_mit_control_command parse_can_id parse_delta require_arg_count
    split_tokens codes stoul stod lt abs Backend.send_each Backend.send_one find_act
unknown_line = refl

handle_line-rejected_example :
    (out : List (Output Fixed)) × (handle_line simulated (codes "move 9 0.05") started
      ≡ record started { output = out })
handle_line-rejected_example =
    handle_line-rejected simulated (codes "move 9 0.05") started unknown_motor unknown_line

abbrev fifo : FifoReader
fifo = record {
  path = command_fifo;
  read_fd = some 3;
  keepalive_fd = some 4;
  pending = codes "sta";
}

-- A system that counts its calls, and has room for every FIFO.
abbrev counting : Posix ℕ
counting = record {
  unlink = λ path s. s + 1;
  mkfifo = λ path s. (true, s + 1);
  open_read = λ path s. (some 3, s + 1);
  open_write = λ path s. (some 4, s + 1);
  close = λ fd s. s + 1;
}

abbrev two_rounds : List (List Text × ℕ)
two_rounds = (codes "move 5 0.05\nspin\n" ∷ [], 1) ∷ ([], 0) ∷ []

control_main-code_example :
    (control_main simulated counting
      (files two_motors)
      (codes "arm_mit_control" ∷ codes "arm.yaml" ∷ [])
      two_rounds
      0).code
    ≡ 0
unfolding open_fifo
control_main-code_example =
    control_main-code simulated simulated_laws counting (files two_motors) (codes "arm_mit_control")
      (codes "arm.yaml") two_rounds 0 (arm_of (first_motor ∷ last_motor ∷ []))
      (record {
        acts = map act_data (first_motor ∷ last_motor ∷ []);
        sent = [];
        zeroed = [];
        saved = [];
        slept = 0;
      })
      (record { path = command_fifo; read_fd = some 3; keepalive_fd = some 4; pending = [] })
      load_two ((λ e. omega arith, tt), (tt, tt)) refl refl

-- The open descriptors without the first of this number.
without : ℕ → List ℕ → List ℕ
without fd [] = []
without fd (newest ∷ rest) = if fd == newest then rest else newest ∷ without fd rest

-- A system that is the list of its open descriptors.
abbrev numbered : Posix (List ℕ)
numbered = record {
  unlink = λ path s. s;
  mkfifo = λ path s. (true, s);
  open_read = λ path s. (some 3, 3 ∷ s);
  open_write = λ path s. (some 4, 4 ∷ s);
  close = without;
}

without-newest : (fd : ℕ) (fds : List ℕ) → without fd (fd ∷ fds) ≡ fds
unfolding without
without-newest fd fds = rw (==_refl fd) refl

abbrev numbered_laws : PosixLaws numbered
numbered_laws = record {
  opened = λ s. s;
  unlink_opens = λ path s. refl;
  mkfifo_opens = λ path s. refl;
  read_opens = λ path s. refl;
  write_opens = λ path s. refl;
  close_opens = λ fd s fds e. ap (without fd) e ∙ without-newest fd fds;
}

control_main-closes_example :
    (control_main simulated numbered
      (files two_motors)
      (codes "arm_mit_control" ∷ codes "arm.yaml" ∷ [])
      two_rounds
      (7 ∷ [])).system
    ≡ 7 ∷ []
control_main-closes_example =
    control_main-closes numbered numbered_laws simulated (files two_motors)
      (codes "arm_mit_control" ∷ codes "arm.yaml" ∷ []) two_rounds (7 ∷ [])

ready-IsReady : IsReady simulated simulated_laws config.motors ready
unfolding find_act Backend.to_damiao_model
ready-IsReady = record {
  object = bus;
  live = record {
    connected = refl;
    motors = refl;
    registered = (
      record { handle = act_data (motor_at 1 0x11); found = refl; own = refl },
      (record { handle = act_data (motor_at 5 0x15); found = refl; own = refl }, tt),
    );
  };
  targets = record { home = refl; requested = refl; active = refl };
}

-- The milliseconds left of so many rounds that a target can travel from one end of 0.05 to the other, with 599
-- millionths a round.
abbrev rests : List ℕ
rests = replicate 83 1

abbrev five_hundredths : ℕ
five_hundredths = length (0 ∷ rests) * 599

same : Near rounding_fixed 600 five_hundredths (milli (pos 0)) (milli (pos 0))
same = record {
  at = pos 0;
  to = pos 0;
  at_value = refl;
  to_value = refl;
  close = (omega arith, omega arith);
  in_bound = omega arith;
}

apart : Near rounding_fixed 600 five_hundredths (milli (pos 0)) (milli (pos 50))
apart = record {
  at = pos 0;
  to = pos 50_000;
  at_value = refl;
  to_value = refl;
  close = (omega arith, omega arith);
  in_bound = omega arith;
}

back : Near rounding_fixed 600 five_hundredths (milli (pos 50)) (milli (pos 0))
back = record {
  at = pos 50_000;
  to = pos 0;
  at_value = refl;
  to_value = refl;
  close = (omega arith, omega arith);
  in_bound = omega arith;
}

run-settles_example :
    (run simulated (quiet (0 ∷ rests)) ready).1.active_targets ≡ ready.requested_targets
unfolding dmopenarm.Double.Fixed.mul
run-settles_example =
    run-settles rounding_fixed simulated simulated_laws config.motors 599 0 rests ready
      ready-IsReady refl refl (omega arith) (same, (apart, tt))

-- The second active target is five hundredths away from home.
abbrev away : MitControl Fixed Bus
away = record ready { active_targets = milli (pos 0) ∷ milli (pos 50) ∷ [] }

away-IsReady : IsReady simulated simulated_laws config.motors away
away-IsReady = record {
  object = ready-IsReady.object;
  live = ready-IsReady.live;
  targets = record { home = refl; requested = refl; active = refl };
}

home_all-settles_example :
    (run simulated ((codes "home all" ∷ [], 0) ∷ quiet rests) away).1.active_targets
    ≡ away.home_targets
unfolding dmopenarm.Double.Fixed.mul
home_all-settles_example =
    home_all-settles rounding_fixed simulated simulated_laws config.motors 599 0 rests away
      away-IsReady refl refl (omega arith) (same, (back, tt))

drive-step_example :
    AllMovedBy rounding_fixed 601 ready.active_targets (drive simulated ready).1.active_targets
unfolding dmopenarm.Double.Fixed.mul
drive-step_example =
    drive-step rounding_fixed simulated 600 five_hundredths ready refl (same, (apart, tt))

move-IsWord : IsWord (codes "0.05")
unfolding codes is_space
move-IsWord = record { nonempty = λ e. cc; solid = (refl, (refl, (refl, (refl, tt)))) }

move-IsDelta : IsDelta max_delta (codes "0.05") (milli (pos 50))
unfolding codes stod lt abs
move-IsDelta = record { read = refl; within = refl }

handle_line-move_line_example :
    handle_line simulated (move_line (to_string 5) (codes "0.05")) ready ≡ record ready {
      requested_targets = milli (pos 0) ∷ milli (pos 100) ∷ [];
      output =
          (ready.output ++ (received (move_line (to_string 5) (codes "0.05")) ∷ []))
          ++ (updated 5 (milli (pos 100)) ∷ []);
    }
unfolding dmopenarm.Double.Fixed.add
handle_line-move_line_example =
    handle_line-move_line simulated 5 (codes "0.05") (milli (pos 50)) (milli (pos 50)) ready
      (motor_at 1 0x11 ∷ []) (motor_at 5 0x15) [] (milli (pos 0) ∷ []) [] (omega arith) move-IsWord
      move-IsDelta refl refl ((λ e. omega arith), tt) refl refl

stop_token : split_tokens (codes " stop ") ≡ codes "stop" ∷ []
unfolding split_tokens codes
stop_token = refl

run-stops_example :
    let lines = (codes "home 1" ∷ []) ++ codes " stop " ∷ codes "home 5" ∷ [] in
    run simulated ((lines, 9) ∷ two_lines) ready ≡ run simulated ((lines, 9) ∷ []) ready
run-stops_example =
    run-stops simulated (codes "home 1" ∷ []) (codes " stop ") (codes "home 5" ∷ []) 9 two_lines
      ready stop_token

-- A reading of numbers that is enough to tell the lines apart.
abbrev show_milli : Fixed → Text
show_milli x = codes "0.001"

control_main-prints_example :
    All
      (IsPrinted show_milli)
      (control_main simulated numbered
        (files two_motors)
        (codes "arm_mit_control" ∷ codes "arm.yaml" ∷ [])
        ((codes "status\n" ∷ [], 1) ∷ two_rounds)
        (7 ∷ [])).output
control_main-prints_example =
    control_main-prints simulated show_milli numbered (files two_motors)
      (codes "arm_mit_control" ∷ codes "arm.yaml" ∷ []) ((codes "status\n" ∷ [], 1) ∷ two_rounds)
      (7 ∷ [])

moved_known : (known_index 5 moved).0 ≡ ok 1
unfolding run drive handle_lines handle_line try_line obey known_index require_known_motor
    MitControl.motor_index MitControl.index_from Arm.make begin_arm Arm.connect
    Arm.send_zero_mit_all Arm.send_mit_all Backend.make Backend.connect Backend.send_zero_mit_all
    Backend.send_mit_all Backend.on_control Backend.install parse_mit_control_command parse_can_id
    parse_delta require_arg_count split_tokens codes stoul stod lt abs Backend.send_each
    Backend.send_one find_act
moved_known = refl

known_index-InBounds_example :
    (1 < length moved.home_targets) × (1 < length moved.requested_targets)
known_index-InBounds_example =
    known_index-InBounds simulated config started two_lines 5 1 begins moved_known
