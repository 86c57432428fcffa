-- ===== src/MitControl/Success.antt =====
-- dm_openarm/examples/arm_mit_control.cpp on an arm that is connected and finds its motors.
use dmopenarm.Base.{
  ℕ, ◌≡◌, refl, sym, ap, ◌∙◌, subst, true, List, [], ◌∷◌, ◌++◌, map, length, length-map, Result, ok,
  err,
}
use dmopenarm.Base.Action.{Action, continue-of_ok, ◌>>◌}
use dmopenarm.Text.{Text}
use dmopenarm.Double.{Double}
use dmopenarm.Types.{MotorConfig, ArmConfig, MotorState}
use dmopenarm.Yaml.{Yaml}
use dmopenarm.Loader.{load_arm_config}
use dmopenarm.Loader.Checks.{load_arm_config-IsWellFormed}
use dmopenarm.Loader.Distinct.{Distinct}
use dmopenarm.Loader.Motors.{can_ids_of}
use dmopenarm.Sdk.{Sdk, SdkLaws, MitFrame}
use dmopenarm.Backend.{act_data}
use dmopenarm.Backend.Registry.{Uncrossed}
use dmopenarm.Backend.Delivery.{Sends}
use dmopenarm.Arm
use dmopenarm.Arm.{Arm, NoConnection}
use dmopenarm.Program.{Program}
use dmopenarm.Program.Live.{
  IsLive, IsLive-Sends, Does-send_zero, Does-sleep, states-live, zero_frames,
}
use dmopenarm.Program.Success.{connect-live}
use dmopenarm.MitControl.{
  MitControl, run, begin_arm, begin_at, listening, default_kp, default_kd, max_target_velocity,
}
use dmopenarm.MitControl.Ready.{IsReady, run-returns}
use dmopenarm.MitControl.Targets.{ok-injective}
use dmopenarm.MitControl.Fifo.{Posix, FifoReader, lines_of, open_fifo}
use dmopenarm.MitControl.Main.{
  command_fifo, after_loop, with_fifo, with_states, with_config, control_main, interrupted,
}

module _ {D F C H : Type 0} ⦃d : Double D⦄ (k : Sdk D F C H) (laws : SdkLaws k)
    (ms : List MotorConfig) where
  after_loop-code :
      {S : Type 0} (os : Posix S) (fifo : FifoReader) (system : S)
      (r : Result (Unit {0}) × MitControl D C)
      → r.0 ≡ ok tt
      → (after_loop k os fifo system r).code ≡ 0
  unfolding after_loop
  after_loop-code os fifo system (ok _, s) e = refl
  after_loop-code os fifo system (err x, s) e = cc

  -- States for the motors, and an arm that is live.
  record Starts (r : Result (List (MotorState D)) × Arm C) : Type 0 where
    pub states : List (MotorState D)
    pub returned : r.0 ≡ ok states
    pub counted : length states ≡ length ms
    pub object : C
    pub live : IsLive k laws ms r.1.backend object

  abbrev program_of : Arm C → Program D C
  program_of a = record { arm = a; output = [] }

  Starts-then :
      (act : Action (Arm C) (Unit {0})) (next : Action (Arm C) (List (MotorState D)))
      (sent : List (MitFrame F)) (a : Arm C) (c : C)
      → IsLive k laws ms a.backend c
      → Sends k laws a.backend c sent ((act a).0, (act a).1.backend)
      → ((b : Arm C) (e : C) → IsLive k laws ms b.backend e → Starts (next b))
      → Starts ((act >> next) a)
  Starts-then act next sent a c v does rest =
      rw (continue-of_ok (λ _. next) (act a) tt does.returned) (
        rest (act a).1 does.after
          (IsLive-Sends k laws ms a.backend c sent ((act a).0, (act a).1.backend) v does))

  Starts-live :
      (period : ℕ) (a : Arm C) (c : C)
      → IsLive k laws ms a.backend c
      → Starts ((Arm.send_zero_mit_all k >> (Arm.sleep k period >> λ b. (Arm.states k b, b))) a)
  Starts-live period a c v =
      let last : Action (Arm C) (List (MotorState D)) = λ b. (Arm.states k b, b) in
      let slept : Action (Arm C) (List (MotorState D)) = Arm.sleep k period >> last in
      Starts-then (Arm.send_zero_mit_all k) slept (zero_frames k laws ms) a c v
        (Does-send_zero k laws ms (program_of a) c v)
        λ b e w.
          Starts-then (Arm.sleep k period) last [] b e w
            (Does-sleep k laws ms (program_of b) e period w)
            λ b' e' w'.
              let (ss, f, n) = states-live k laws ms (program_of b') e' w' in
              record { states = ss; returned = f; counted = n; object = e'; live = w' }

  interrupted-returns :
      {S : Type 0} (os : Posix S) (r : Result (Unit {0}) × MitControl D C)
      → r.0 ≡ ok tt
      → (interrupted k os r).0 ≡ ok tt
  interrupted-returns os (ok _, s) e = refl
  interrupted-returns os (err x, s) e = cc

  with_fifo-code :
      {S : Type 0} (os : Posix S) (rounds : List (List Text × ℕ)) (s : MitControl D C)
      (r : Result FifoReader × S) (fifo : FifoReader)
      → r.0 ≡ ok fifo
      → IsReady k laws ms s
      → (with_fifo k os rounds s r).code ≡ 0
  unfolding with_fifo
  with_fifo-code os rounds s (err e, system) fifo h v = absurd (cc)
  with_fifo-code os rounds s (ok reader, system) fifo h v =
      let told : MitControl D C = record s {
        output =
            s.output ++ (listening command_fifo default_kp default_kd max_target_velocity ∷ []);
      } in
      let r = run k (lines_of rounds reader) told in
      let ready : IsReady k laws ms told = record {
        object = v.object;
        live = v.live;
        targets = record {
          home = v.targets.home;
          requested = v.targets.requested;
          active = v.targets.active;
        };
      } in
      after_loop-code os reader system (interrupted k os r)
        (interrupted-returns os r (run-returns k laws ms (lines_of rounds reader) told ready))

  with_states-code :
      {S : Type 0} (os : Posix S) (rounds : List (List Text × ℕ)) (system : S)
      (r : Result (List (MotorState D)) × Arm C) (fifo : FifoReader)
      → Starts r
      → (open_fifo os command_fifo system).0 ≡ ok fifo
      → (with_states k os rounds system r).code ≡ 0
  unfolding with_states begin_at
  with_states-code os rounds system (err e, a) fifo v h = let e' = v.returned in absurd (cc)
  with_states-code os rounds system (ok ss, a) fifo v h =
      let counted : length ss ≡ length ms = ap length (ok-injective v.returned) ∙ v.counted in
      let positions : List D = map (λ g. g.position) ss in
      let begun : MitControl D C = record {
        arm = a;
        home_targets = positions;
        requested_targets = positions;
        active_targets = positions;
        running = true;
        output = [];
      } in
      with_fifo-code os rounds begun (open_fifo os command_fifo system) fifo h (record {
        object = v.object;
        live = v.live;
        targets = record {
          home = length-map ss _ ∙ counted;
          requested = length-map ss _ ∙ counted;
          active = length-map ss _ ∙ counted;
        };
      })

module _ {D F C H S : Type 0} ⦃d : Double D⦄ (k : Sdk D F C H) (laws : SdkLaws k)
    (os : Posix S) where
  begin_arm-Starts :
      (config : ArmConfig) (c : C)
      → Distinct (can_ids_of config.motors)
      → Uncrossed config.motors
      → k.construct config.nom_baud config.dat_baud config.usb_serial (map act_data config.motors)
        ≡ ok c
      → Starts k laws config.motors (begin_arm k config (Arm.make config))
  unfolding begin_arm
  begin_arm-Starts config c distinct uncrossed made =
      let (returned, live) = connect-live k laws config c [] distinct uncrossed made in
      let r = Arm.connect k (Arm.make config) in
      let next : Action (Arm C) (List (MotorState D)) =
        Arm.send_zero_mit_all k >> (Arm.sleep k config.loop_period >> λ b. (Arm.states k b, b)) in
      rw (continue-of_ok (λ _. next) r tt returned)
        (Starts-live k laws config.motors config.loop_period r.1 c live)

  -- Where the file can be loaded, no CAN ID in it is the MST ID of a motor before, the library's
  -- constructor returns and the FIFO can be made and opened, the MIT control program exits with code 0:
  -- whatever bytes its rounds read, no line of them makes it fail.
  pub control_main-code :
      {N : Type 0} (y : Yaml N) (program path : Text) (rounds : List (List Text × ℕ)) (system : S)
      (config : ArmConfig) (c : C) (fifo : FifoReader)
      → load_arm_config y path ≡ ok config
      → Uncrossed config.motors
      → k.construct config.nom_baud config.dat_baud config.usb_serial (map act_data config.motors)
        ≡ ok c
      → (open_fifo os command_fifo system).0 ≡ ok fifo
      → (control_main k os y (program ∷ path ∷ []) rounds system).code ≡ 0
  unfolding control_main with_config
  control_main-code y program path rounds system config c fifo e uncrossed made opened =
      let distinct = (load_arm_config-IsWellFormed y path config e).can_distinct in
      let begun = begin_arm k config (Arm.make config) in
      subst (λ g. (with_config k os rounds system g).code ≡ 0) (sym e)
        (with_states-code k laws config.motors os rounds system begun fifo
          (begin_arm-Starts config c distinct uncrossed made) opened)
