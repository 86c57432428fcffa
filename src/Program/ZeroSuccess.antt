-- ===== src/Program/ZeroSuccess.antt =====
-- When dm_openarm/examples/set_zero_position.cpp exits with code 0.
use dmopenarm.Base.{
  ℕ, ◌≡◌, refl, sym, ◌∙◌, arith, subst, Bool, true, false, List, [], ◌∷◌, ◌++◌, inl, inr,
  Bool-cases, All-at, append-nil, map, ok, All,
}
use dmopenarm.Base.Action.{Action, continue, ◌>>=◌, ◌>>◌}
use dmopenarm.Text.{Text, codes, text_eq, text_eq_refl}
use dmopenarm.Double.{Double}
use dmopenarm.Types.{MotorConfig, ArmConfig, MotorState}
use dmopenarm.Yaml.{Yaml}
use dmopenarm.Loader.{load_arm_config}
use dmopenarm.Loader.Checks.{load_arm_config-IsWellFormed}
use dmopenarm.Loader.Motors.{can_ids_of}
use dmopenarm.Sdk.{Sdk, SdkLaws}
use dmopenarm.Sdk.Zeroing.{ZeroLaws}
use dmopenarm.Backend.{act_data}
use dmopenarm.Backend.Registry.{Uncrossed}
use dmopenarm.Backend.Delivery.{IsRegistered}
use dmopenarm.Loader.Distinct.{Distinct}
use dmopenarm.Arm
use dmopenarm.Program.{Line, Program, run_main, write, disable, read_states, send_zero, sleep}
use dmopenarm.Program.SetZero.{
  parse_can_id, target_ids, after_lines, zero_targets, zero_body, zero_main,
}
use dmopenarm.Program.Zeroing.{Finds, zero_targets-Zeroes}
use dmopenarm.Program.Live.{zero_frames, IsLive, Does, Does-send_zero, Does-sleep}
use dmopenarm.Program.Success.{
  Succeeds, Succeeds-then, Succeeds-read, Succeeds-connect, run_main-code,
}

module _ {D F C H : Type 0} ⦃d : Double D⦄ (k : Sdk D F C H) (laws : SdkLaws k)
    (zero : ZeroLaws laws) where
  Finds-registered :
      (c : C) (ms : List MotorConfig)
      → All (IsRegistered k laws c) ms
      → All (Finds k laws zero c) (can_ids_of ms)
  Finds-registered c [] v = tt
  Finds-registered c (m ∷ ms) (v, vs) = ((v.handle, v.found, v.own), Finds-registered c ms vs)

  Does-zero_targets :
      (ms : List MotorConfig) (ids : List ℕ) (persist : Bool) (before : List (MotorState D))
      (p : Program D C) (c : C)
      → IsLive k laws ms p.arm.backend c
      → All (Finds k laws zero c) ids
      → Does k laws p c [] (zero_targets k persist before ids p)
  Does-zero_targets ms ids persist before p c v found =
      let z = zero_targets-Zeroes k laws zero persist before ids p c v.connected found in
      record {
        after = z.after;
        returned = z.returned;
        backend = z.backend;
        delivered = z.quiet ∙ sym (append-nil (laws.frames c));
        same = z.same;
      }

  every_target :
      (target : Text) (config : ArmConfig)
      → text_eq target (codes "all") ≡ true
      → target_ids target config ≡ ok (can_ids_of config.motors)
  unfolding target_ids
  every_target target config is_all = rw is_all refl

  one_target :
      (target : Text) (config : ArmConfig) (n : ℕ)
      → parse_can_id target ≡ ok n
      → text_eq target (codes "all") ≡ false
      → target_ids target config ≡ ok (n ∷ [])
  unfolding target_ids
  one_target target config n e other = ground (arith, other, e)

  -- These are CAN IDs under which an arm that has these motors finds them.
  abbrev AreFound : List MotorConfig → List ℕ → Type 0
  AreFound ms ids = (c : C) → All (IsRegistered k laws c) ms → All (Finds k laws zero c) ids

  module _ (target : Text) (persist : Bool) (config : ArmConfig) (ids : List ℕ) where
    Succeeds-zeroed :
        AreFound config.motors ids
        → (before : List (MotorState D))
        → Succeeds k laws config.motors (
            zero_targets k persist before ids
            >> (send_zero k
                >> (sleep k config.loop_period
                    >> (read_states k >>= λ states. write (after_lines states ids) >> disable))))
    Succeeds-zeroed found before =
        let reading : Action (Program D C) (Unit {0}) =
          read_states k >>= λ states. write (after_lines states ids) >> disable in
        let resting : Action (Program D C) (Unit {0}) = sleep k config.loop_period >> reading in
        Succeeds-then k laws config.motors (zero_targets k persist before ids)
          (send_zero k >> resting) []
          (λ p c v. Does-zero_targets config.motors ids persist before p c v (found c v.registered))
          (Succeeds-then k laws config.motors (send_zero k) resting
            (zero_frames k laws config.motors) (Does-send_zero k laws config.motors)
            (Succeeds-then k laws config.motors (sleep k config.loop_period) reading []
              (λ p c. Does-sleep k laws config.motors p c config.loop_period)
              (Succeeds-read k laws config.motors
                (λ states. write (after_lines states ids) >> disable) λ ss p c n v. refl)))

    abbrev zeroing : List (MotorState D) → List ℕ → Action (Program D C) (Unit {0})
    zeroing before targets =
        zero_targets k persist before targets
        >> (send_zero k
            >> (sleep k config.loop_period
                >> (read_states k >>= λ states. write (after_lines states targets) >> disable)))

    Succeeds-named :
        target_ids target config ≡ ok ids
        → AreFound config.motors ids
        → (before : List (MotorState D))
        → Succeeds k laws config.motors ((λ p. (target_ids target config, p)) >>= zeroing before)
    Succeeds-named named found before p c v =
        subst (λ r. (continue (zeroing before) (r, p)).0 ≡ ok tt) (sym named)
          (Succeeds-zeroed found before p c v)

    zero_body-succeeds :
        (c : C) (output : List (Line D))
        → target_ids target config ≡ ok ids
        → AreFound config.motors ids
        → Distinct (can_ids_of config.motors)
        → Uncrossed config.motors
        → k.construct config.nom_baud config.dat_baud config.usb_serial (map act_data config.motors)
          ≡ ok c
        → (zero_body k target persist config (record { arm = Arm.make config; output = output })).0
          ≡ ok tt
    unfolding zero_body
    zero_body-succeeds c output named found distinct uncrossed made =
        let naming : List (MotorState D) → Action (Program D C) (Unit {0}) =
          λ before. (λ p. (target_ids target config, p)) >>= zeroing before in
        let reading : Action (Program D C) (Unit {0}) = read_states k >>= naming in
        let resting : Action (Program D C) (Unit {0}) = sleep k config.loop_period >> reading in
        Succeeds-connect k laws config c output (send_zero k >> resting) distinct uncrossed made (
          Succeeds-then k laws config.motors (send_zero k) resting
            (zero_frames k laws config.motors) (Does-send_zero k laws config.motors)
            (Succeeds-then k laws config.motors (sleep k config.loop_period) reading []
              (λ p c. Does-sleep k laws config.motors p c config.loop_period)
              (Succeeds-read k laws config.motors naming
                λ before p c n v. Succeeds-named named found before p c v)))

  -- The target is a configured motor.
  found_one :
      (ms before : List MotorConfig) (m : MotorConfig) (after : List MotorConfig)
      → ms ≡ before ++ m ∷ after
      → AreFound ms (m.can_id ∷ [])
  found_one ms before m after e c v =
      let own =
        All-at (IsRegistered k laws c) before m after (subst (All (IsRegistered k laws c)) e v) in
      ((own.handle, own.found, own.own), tt)

  targets_found :
      (target : Text) (config : ArmConfig) (before : List MotorConfig) (m : MotorConfig)
      (after : List MotorConfig)
      → config.motors ≡ before ++ m ∷ after
      → parse_can_id target ≡ ok m.can_id
      → (ids : List ℕ) × (target_ids target config ≡ ok ids) × AreFound config.motors ids
  targets_found target config before m after e named =
      elim (Bool-cases (text_eq target (codes "all"))) [
        | inl is_all ↦ (
          can_ids_of config.motors,
          every_target target config is_all,
          λ c. Finds-registered c config.motors,
        )
        | inr other ↦ (
          m.can_id ∷ [],
          one_target target config m.can_id named other,
          found_one config.motors before m after e,
        )
      ]

  -- Where the file can be loaded, no CAN ID in it is the MST ID of a motor before, and the library's
  -- constructor returns, set_zero_position.cpp run for all motors, or for the CAN ID of one of them, exits
  -- with code 0, with --runtime-only and without.
  pub zero_main-succeeds :
      {N : Type 0} (y : Yaml N) (program path target : Text) (config : ArmConfig) (c : C)
      (before : List MotorConfig) (m : MotorConfig) (after : List MotorConfig)
      → load_arm_config y path ≡ ok config
      → Uncrossed config.motors
      → k.construct config.nom_baud config.dat_baud config.usb_serial (map act_data config.motors)
        ≡ ok c
      → config.motors ≡ before ++ m ∷ after
      → parse_can_id target ≡ ok m.can_id
      → ((zero_main k y (program ∷ path ∷ codes "all" ∷ [])).code ≡ 0)
        × ((zero_main k y (program ∷ path ∷ codes "all" ∷ codes "--runtime-only" ∷ [])).code ≡ 0)
        × ((zero_main k y (program ∷ path ∷ target ∷ [])).code ≡ 0)
        × ((zero_main k y (program ∷ path ∷ target ∷ codes "--runtime-only" ∷ [])).code ≡ 0)
  unfolding zero_main
  zero_main-succeeds y program path target config c before m after e uncrossed made own named =
      let distinct = (load_arm_config-IsWellFormed y path config e).can_distinct in
      let (ids, ids_of, found) = targets_found target config before m after own named in
      let every : (persist : Bool)
          → (run_main {D = D} {C = C} y path (zero_body k (codes "all") persist)).code ≡ 0 =
        λ persist. run_main-code k laws y path config (zero_body k (codes "all") persist) e (
          zero_body-succeeds (codes "all") persist config (can_ids_of config.motors) c []
            (every_target (codes "all") config (text_eq_refl (codes "all")))
            (λ f. Finds-registered f config.motors) distinct uncrossed made) in
      let just : (persist : Bool)
          → (run_main {D = D} {C = C} y path (zero_body k target persist)).code ≡ 0 =
        λ persist. run_main-code k laws y path config (zero_body k target persist) e (
          zero_body-succeeds target persist config ids c [] ids_of found distinct uncrossed made) in
      rw (text_eq_refl (codes "--runtime-only")) (every true, every false, just true, just false)
