-- ===== src/Program/Success.antt =====
-- When the programs under dm_openarm/examples exit with code 0.
use dmopenarm.Base.{ℕ, ◌≡◌, refl, sym, subst, some, List, [], map, length, Result, ok, err}
use dmopenarm.Base.Action.{Action, continue-of_ok, ◌>>=◌, ◌>>◌}
use dmopenarm.Text.{Text, codes}
use dmopenarm.Double.{Double}
use dmopenarm.Types.{MotorConfig, ArmConfig, MotorState}
use dmopenarm.Yaml.{Yaml}
use dmopenarm.Loader.{load_arm_config}
use dmopenarm.Loader.Checks.{load_arm_config-IsWellFormed}
use dmopenarm.Sdk.{Sdk, SdkLaws, MitFrame}
use dmopenarm.Backend.{Backend, install, act_data}
use dmopenarm.Backend
use dmopenarm.Backend.Registry.{Uncrossed}
use dmopenarm.Backend.History.{connects, after, IsReady, make-IsReady, after-IsReady}
use dmopenarm.Arm
use dmopenarm.Loader.Distinct.{Distinct}
use dmopenarm.Loader.Motors.{can_ids_of}
use dmopenarm.Program.{
  Line, Program, left, configured, run_main, config_path, connect, disable, send_zero, sleep, say,
  read_states,
}
use dmopenarm.Program.Enable.{enable_body, enable_main}
use dmopenarm.Program.Check.{check_rounds, check_body, check_main}
use dmopenarm.Program.Hold.{signal_handler, hold_commands, hold_rounds, hold_body, hold_main}
use dmopenarm.Program.Live.{
  zero_frames, IsLive, IsLive-Sends, Does, Does-sleep, Does-send_zero, states-live,
}
use dmopenarm.Program.Running.{repeated, check_rounds-Does, hold_rounds-Does}

module _ {D F C H : Type 0} ⦃d : Double D⦄ (k : Sdk D F C H) where
  -- What `connect` makes of a new arm, where the library's constructor returns.
  pub connect-live :
      (laws : SdkLaws k) (config : ArmConfig) (c : C) (output : List (Line D))
      → Distinct (can_ids_of config.motors)
      → Uncrossed config.motors
      → k.construct config.nom_baud config.dat_baud config.usb_serial (map act_data config.motors)
        ≡ ok c
      → let r = connect k (record { arm = Arm.make config; output = output }) in
        (r.0 ≡ ok tt) × IsLive k laws config.motors r.1.arm.backend c
  unfolding Arm.connect Arm.make Backend.make Backend.connect install after
  connect-live laws config c output distinct uncrossed made =
      let b : Backend C = Backend.make config in
      let connected : Backend C = record {
        config = config;
        init_data = map act_data config.motors;
        control = some c;
      } in
      let e : Backend.connect k b ≡ (ok tt, connected) = rw made refl in
      let v =
        after-IsReady k laws config b connects (make-IsReady k laws config distinct uncrossed) in
      let v' = subst (λ r. IsReady k laws config r.1) e v in
      subst (λ r. (r.0 ≡ ok tt) × IsLive k laws config.motors r.1 c) (sym e)
        (refl, record { connected = refl; motors = refl; registered = v'.bound })

  returns-then :
      (p : Program D C) (act next : Action (Program D C) (Unit {0}))
      → (act p).0 ≡ ok tt
      → (next (act p).1).0 ≡ ok tt
      → ((act >> next) p).0 ≡ ok tt
  returns-then p act next first second = rw (continue-of_ok (λ _. next) (act p) tt first) second

  left-code : (r : Result (Unit {0}) × Program D C) → r.0 ≡ ok tt → (left r).code ≡ 0
  left-code (ok _, p) e = refl
  left-code (err x, p) e = cc

  module _ (laws : SdkLaws k) (ms : List MotorConfig) where
    -- From a live moment this part of a program returns.
    abbrev pub Succeeds : Action (Program D C) (Unit {0}) → Type 0
    Succeeds act = (p : Program D C) (c : C) → IsLive k laws ms p.arm.backend c → (act p).0 ≡ ok tt

    pub Succeeds-then :
        (act next : Action (Program D C) (Unit {0})) (sent : List (MitFrame F))
        → ((p : Program D C) (c : C)
            → IsLive k laws ms p.arm.backend c
            → Does k laws p c sent (act p))
        → Succeeds next
        → Succeeds (act >> next)
    Succeeds-then act next sent does q p c v =
        let first = does p c v in
        returns-then p act next first.returned (
          q (act p).1 first.after (
            IsLive-Sends k laws ms p.arm.backend c sent ((act p).0, (act p).1.arm.backend) v first))

    pub Succeeds-read :
        (next : List (MotorState D) → Action (Program D C) (Unit {0}))
        → ((ss : List (MotorState D)) (p : Program D C) (c : C)
            → length ss ≡ length ms
            → IsLive k laws ms p.arm.backend c
            → (next ss p).0 ≡ ok tt)
        → Succeeds (read_states k >>= next)
    Succeeds-read next q p c v = let (ss, e, n) = states-live k laws ms p c v in rw e (q ss p c n v)

    Succeeds-check : (n : ℕ) (config : ArmConfig) → Succeeds (check_rounds k n config >> disable)
    Succeeds-check n config =
        Succeeds-then (check_rounds k n config) disable (repeated n (zero_frames k laws ms))
          (check_rounds-Does k laws ms n config) λ p c v. refl

    Succeeds-enable :
        (period : ℕ) (text : Text)
        → Succeeds (send_zero k >> (sleep k period >> (say text >> disable)))
    Succeeds-enable period text =
        let last : Action (Program D C) (Unit {0}) = say text >> disable in
        Succeeds-then (send_zero k) (sleep k period >> last) (zero_frames k laws ms)
          (Does-send_zero k laws ms)
          (Succeeds-then (sleep k period) last [] (λ p c. Does-sleep k laws ms p c period)
            λ p c v. refl)

    Succeeds-hold :
        (rounds : List ℕ) (period : ℕ)
        → Succeeds (
            send_zero k
            >> (sleep k period
                >> (read_states k >>= λ ss.
                    (hold_rounds k rounds (hold_commands ss) >> (signal_handler 2 >> disable)))))
    Succeeds-hold rounds period =
        let holding : List (MotorState D) → Action (Program D C) (Unit {0}) =
          λ ss. hold_rounds k rounds (hold_commands ss) >> (signal_handler 2 >> disable) in
        let reading : Action (Program D C) (Unit {0}) = read_states k >>= holding in
        Succeeds-then (send_zero k) (sleep k period >> reading) (zero_frames k laws ms)
          (Does-send_zero k laws ms)
          (Succeeds-then (sleep k period) reading [] (λ p c. Does-sleep k laws ms p c period)
            (Succeeds-read holding λ ss p c n v.
              let held = hold_rounds-Does k laws ms rounds ss p c n v in
              returns-then p (hold_rounds k rounds (hold_commands ss)) (signal_handler 2 >> disable)
                held.returned refl))

  module _ (laws : SdkLaws k) where
    pub Succeeds-connect :
        (config : ArmConfig) (c : C) (output : List (Line D))
        (next : Action (Program D C) (Unit {0}))
        → Distinct (can_ids_of config.motors)
        → Uncrossed config.motors
        → k.construct config.nom_baud config.dat_baud config.usb_serial (map act_data config.motors)
          ≡ ok c
        → Succeeds laws config.motors next
        → ((connect k >> next) (record { arm = Arm.make config; output = output })).0 ≡ ok tt
    Succeeds-connect config c output next distinct uncrossed made q =
        let (returned, live) = connect-live laws config c output distinct uncrossed made in
        returns-then (record { arm = Arm.make config; output = output }) (connect k) next returned
          (q (connect k (record { arm = Arm.make config; output = output })).1 c live)

    pub run_main-code :
        {N : Type 0} (y : Yaml N) (path : Text) (config : ArmConfig)
        (body : ArmConfig → Action (Program D C) (Unit {0}))
        → load_arm_config y path ≡ ok config
        → (body config (record { arm = Arm.make config; output = [] })).0 ≡ ok tt
        → (run_main {D = D} {C = C} y path body).code ≡ 0
    unfolding run_main configured
    run_main-code y path config body e r =
        subst (λ g. (configured {D = D} {C = C} body g).code ≡ 0) (sym e)
          (left-code (body config (record { arm = Arm.make config; output = [] })) r)

    -- Where the file can be loaded, no CAN ID in it is the MST ID of a motor before, and the library's
    -- constructor returns, the three programs run to their end and exit with code 0, however many rounds
    -- hold_position.cpp makes before it is interrupted.
    pub mains-succeed :
        {N : Type 0} (y : Yaml N) (argv : List Text) (rounds : List ℕ) (config : ArmConfig) (c : C)
        → load_arm_config y (config_path argv) ≡ ok config
        → Uncrossed config.motors
        → k.construct config.nom_baud config.dat_baud config.usb_serial (map act_data config.motors)
          ≡ ok c
        → ((enable_main k y argv).code ≡ 0)
          × ((check_main k y argv).code ≡ 0)
          × ((hold_main k y argv rounds).code ≡ 0)
    unfolding enable_main enable_body check_main check_body hold_main hold_body
    mains-succeed y argv rounds config c e uncrossed made =
        let path = config_path argv in
        let distinct = (load_arm_config-IsWellFormed y path config e).can_distinct in
        (
          run_main-code y path config (λ _. enable_body k) e
              (Succeeds-connect config c _ _ distinct uncrossed made
                (Succeeds-enable laws config.motors 1000 (codes "Disabling motors"))),
          run_main-code y path config (check_body k) e (
              Succeeds-connect config c [] _ distinct uncrossed made
                (Succeeds-check laws config.motors 100 config)),
          run_main-code y path config (hold_body k rounds) e (
              Succeeds-connect config c [] _ distinct uncrossed made
                (Succeeds-hold laws config.motors rounds config.loop_period)),
        )
