-- ===== src/Program/Tests.antt =====
-- The properties of the programs under dm_openarm/examples at concrete inputs.
use dmopenarm.Base.{true, ℕ, ◌≡◌, refl, arith, map, some, List, [], ◌∷◌, ok}
use dmopenarm.Base.Action.{◌>>=◌}
use dmopenarm.Text.{Text, codes}
use dmopenarm.Double.Fixed.{Fixed, fixed}
use dmopenarm.Types.{MotorConfig, MotorState}
use dmopenarm.Loader.Fixture.{files, two_motors}
use dmopenarm.Loader.Runs.{arm_of, first_motor, last_motor, load_two}
use dmopenarm.Sdk.{find_act}
use dmopenarm.Sdk.Simulated.{Bus, simulated, simulated_laws, simulated_zero_laws}
use dmopenarm.Backend
use dmopenarm.Backend.{act_data}
use dmopenarm.Backend.Registry.{Uncrossed}
use dmopenarm.Program.{Program, read_states}
use dmopenarm.Program.Enable.{enable_main, enable_body}
use dmopenarm.Program.Check.{check_main, check_body}
use dmopenarm.Program.Hold.{hold_main, hold_body, hold_commands, hold_rounds}
use dmopenarm.Program.SetZero.{parse_can_id, zero_targets, zero_main, zero_body}
use dmopenarm.Program.Zeroing.{Zeroes, tells_each, zero_targets-Zeroes}
use dmopenarm.Program.ZeroSuccess.{zero_main-succeeds}
use dmopenarm.Program.Live.{IsLive, Does}
use dmopenarm.Program.Running.{repeated, held_frames, hold_rounds-held_frames}
use dmopenarm.Program.Exits.{LetsGo, bodies-LetsGo}
use dmopenarm.Program.Success.{mains-succeed}
use dmopenarm.Program.RuntimeOnly.{other, zero_main-other}

abbrev motors : List MotorConfig
motors = first_motor ∷ last_motor ∷ []

abbrev bus : Bus
bus = record { acts = map act_data motors; sent = []; zeroed = []; saved = []; slept = 0 }

-- An arm of two motors that is connected.
abbrev live : Program Fixed Bus
live = record {
  arm = record {
    config = arm_of motors;
    backend = record { config = arm_of motors; init_data = []; control = some bus };
  };
  output = [];
}

live-IsLive : IsLive simulated simulated_laws motors live.arm.backend bus
unfolding find_act Backend.to_damiao_model
live-IsLive = record {
  connected = refl;
  motors = refl;
  registered = (
    record { handle = act_data first_motor; found = refl; own = refl },
    (record { handle = act_data last_motor; found = refl; own = refl }, tt),
  );
}

abbrev states : List (MotorState Fixed)
states = map (λ m. Backend.state_of simulated bus m (act_data m)) motors

-- What is left of the periods of two rounds: one millisecond, and none.
abbrev two_rests : List ℕ
two_rests = 1 ∷ 0 ∷ []

hold_rounds-held_frames_example :
    Does simulated simulated_laws live bus
      (repeated 2 (held_frames simulated simulated_laws bus motors live-IsLive.registered))
      ((read_states simulated >>= λ ss. hold_rounds simulated two_rests (hold_commands ss)) live)
hold_rounds-held_frames_example =
    hold_rounds-held_frames simulated simulated_laws motors two_rests live bus live-IsLive

bodies-LetsGo_example :
    LetsGo (enable_body simulated live)
    × LetsGo (check_body simulated (arm_of motors) live)
    × LetsGo (hold_body simulated two_rests (arm_of motors) live)
    × LetsGo (zero_body simulated (codes "all") true (arm_of motors) live)
bodies-LetsGo_example = bodies-LetsGo simulated (codes "all") true two_rests (arm_of motors) live

abbrev arguments : List Text
arguments = codes "program" ∷ codes "arm.yaml" ∷ []

uncrossed : Uncrossed motors
uncrossed = ((λ e. omega arith, tt), (tt, tt))

mains-succeed_example :
    ((enable_main simulated (files two_motors) arguments).code ≡ 0)
    × ((check_main simulated (files two_motors) arguments).code ≡ 0)
    × ((hold_main simulated (files two_motors) arguments two_rests).code ≡ 0)
unfolding dmopenarm.Program.config_path codes
mains-succeed_example =
    mains-succeed simulated simulated_laws (files two_motors) arguments two_rests (arm_of motors)
      bus load_two uncrossed refl

zero_main-other_example :
    let argv = codes "program" ∷ codes "arm.yaml" ∷ codes "5" ∷ codes "--runtime-only" ∷ [] in
    zero_main (other simulated (λ h c. (ok tt, c)) (λ c. (ok tt, c))) (files two_motors) argv
    ≡ zero_main simulated (files two_motors) argv
zero_main-other_example =
    zero_main-other simulated (λ h c. (ok tt, c)) (λ c. (ok tt, c)) (files two_motors)
      (codes "program") (codes "arm.yaml") (codes "5")

-- The second motor, and then the first.
abbrev targets : List ℕ
targets = last_motor.can_id ∷ first_motor.can_id ∷ []

zero_targets-Zeroes_example :
    Zeroes simulated simulated_laws simulated_zero_laws live bus
      (tells_each true targets (record { zeroed = []; saved = [] }))
      (zero_targets simulated true states targets live)
unfolding find_act Backend.to_damiao_model
zero_targets-Zeroes_example =
    zero_targets-Zeroes simulated simulated_laws simulated_zero_laws true states targets live bus
      refl ((act_data last_motor, refl, refl), ((act_data first_motor, refl, refl), tt))

last_named : parse_can_id (codes "5") ≡ ok last_motor.can_id
unfolding dmopenarm.Command.parse_can_id codes dmopenarm.Text.Stoul.stoul
last_named = refl

zero_main-succeeds_example :
    let zeroing : List Text → ℕ = λ more.
      (zero_main simulated (files two_motors) (codes "program" ∷ codes "arm.yaml" ∷ more)).code in
    (zeroing (codes "all" ∷ []) ≡ 0)
    × (zeroing (codes "all" ∷ codes "--runtime-only" ∷ []) ≡ 0)
    × (zeroing (codes "5" ∷ []) ≡ 0)
    × (zeroing (codes "5" ∷ codes "--runtime-only" ∷ []) ≡ 0)
zero_main-succeeds_example =
    zero_main-succeeds simulated simulated_laws simulated_zero_laws (files two_motors)
      (codes "program") (codes "arm.yaml") (codes "5") (arm_of motors) bus (first_motor ∷ [])
      last_motor [] load_two uncrossed refl refl last_named
