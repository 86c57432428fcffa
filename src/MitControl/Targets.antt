-- ===== src/MitControl/Targets.antt =====
-- The three lists of targets of dm_openarm/examples/arm_mit_control.cpp, which its loop indexes by motor.
use dmopenarm.Base.{
  ℕ, suc, ◌≡◌, refl, sym, ap, ◌∙◌, subst, Bool, true, false, List, [], ◌∷◌, arith, length,
  length-map, Result, ok, err, if◌then◌else◌,
}
use dmopenarm.Base.Action.{Action, continue, ◌>>◌}
use dmopenarm.Text.{Text}
use dmopenarm.Double.{Double}
use dmopenarm.Types.{MotorConfig, ArmConfig, MotorState}
use dmopenarm.Sdk.{Sdk}
use dmopenarm.Backend.{Backend, connect, install, on_control, send_mit_all, send_zero_mit_all}
use dmopenarm.Backend.Feedback.{Reports, states_iff}
use dmopenarm.Arm
use dmopenarm.Arm.{Arm, on_backend}
use dmopenarm.MitControl.{
  MitControl, approach_all, step_of, handle_lines, drive, pause, run, begin_at, begin_arm, begin,
}
use dmopenarm.MitControl.Handling.{handle_lines-Handles}

module _ {D C : Type 0} where
  pub record HasTargets (n : ℕ) (s : MitControl D C) : Type 0 where
    pub home : length s.home_targets ≡ n
    pub requested : length s.requested_targets ≡ n
    pub active : length s.active_targets ≡ n

pub ok-injective : {A : Type 0} {a b : A} → ok a ≡ ok b → a ≡ b
ok-injective e = cc

pub length-approach_all :
    {D : Type 0} ⦃d : Double D⦄ (step : D) (active rs : List D)
    → length active ≡ length rs
    → length (approach_all step active rs) ≡ length active
unfolding approach_all
length-approach_all step [] rs e = refl
length-approach_all step (a ∷ active) [] e = absurd (omega arith)
length-approach_all step (a ∷ active) (r ∷ rs) e =
    ap suc (length-approach_all step active rs (omega arith))

module _ {D F C H : Type 0} ⦃d : Double D⦄ (k : Sdk D F C H) where
  pub handle_lines-HasTargets :
      (n : ℕ) (lines : List Text) (s : MitControl D C)
      → HasTargets n s
      → HasTargets n (handle_lines k lines s)
  handle_lines-HasTargets n lines s v =
      let w = handle_lines-Handles k lines s in
      record {
        home = ap length w.home ∙ v.home;
        requested = w.count (v.home ∙ sym v.requested) ∙ v.requested;
        active = ap length w.active ∙ v.active;
      }

  pub drive-HasTargets : (n : ℕ) (s : MitControl D C) → HasTargets n s → HasTargets n (drive k s).1
  unfolding drive
  drive-HasTargets n s v = record {
    home = v.home;
    requested = v.requested;
    active =
        length-approach_all (step_of s.arm.config) s.active_targets s.requested_targets
          (v.active ∙ sym v.requested)
        ∙ v.active;
  }

  continue-HasTargets :
      (n : ℕ) (next : Action (MitControl D C) (Unit {0})) (r : Result (Unit {0}) × MitControl D C)
      → ((s : MitControl D C) → HasTargets n s → HasTargets n (next s).1)
      → HasTargets n r.1
      → HasTargets n (continue (λ _. next) r).1
  continue-HasTargets n next (ok tt, s) q v = q s v
  continue-HasTargets n next (err e, s) q v = v

  if_running-HasTargets :
      (n : ℕ) (on : Bool) (r : Result (Unit {0}) × MitControl D C) (s : MitControl D C)
      → HasTargets n r.1
      → HasTargets n s
      → HasTargets n (if on then r else (ok tt, s)).1
  if_running-HasTargets n true r s v w = v
  if_running-HasTargets n false r s v w = w

  run-HasTargets :
      (n : ℕ) (rounds : List (List Text × ℕ)) (s : MitControl D C)
      → HasTargets n s
      → HasTargets n (run k rounds s).1
  unfolding run
  run-HasTargets n [] s v = v
  run-HasTargets n ((lines, left) ∷ rounds) s v =
      let t = handle_lines k lines s in
      let next : Action (MitControl D C) (Unit {0}) = pause k left >> run k rounds in
      if_running-HasTargets n s.running (continue (λ _. next) (drive k t)) s
        (continue-HasTargets n next (drive k t)
          (λ u w.
            run-HasTargets n rounds (pause k left u).1
              (record { home = w.home; requested = w.requested; active = w.active }))
          (drive-HasTargets n t (handle_lines-HasTargets n lines s v)))
        v

  pub length-Reports :
      (c : C) (ms : List MotorConfig) (ss : List (MotorState D))
      → Reports k c ms ss
      → length ss ≡ length ms
  length-Reports c [] [] r = refl
  length-Reports c [] (s ∷ ss) r = absurd r
  length-Reports c (m ∷ ms) [] r = absurd r
  length-Reports c (m ∷ ms) (s ∷ ss) (_, r) = ap suc (length-Reports c ms ss r)

  pub connect-config : (b : Backend C) → (connect k b).1.config ≡ b.config
  unfolding connect install
  connect-config b = ground arith

  pub on_control-config :
      (act : Action C (Unit {0})) (b : Backend C) → (on_control act b).1.config ≡ b.config
  unfolding on_control
  on_control-config act b = ground arith

  module _ (config : ArmConfig) where
    -- Where states are returned, there is one for each motor.
    abbrev Counted : Result (List (MotorState D)) × Arm C → Type 0
    Counted r = (ss : List (MotorState D)) → r.0 ≡ ok ss → length ss ≡ length config.motors

    Counted-continue :
        (next : Action (Arm C) (List (MotorState D))) (r : Result (Unit {0}) × Arm C)
        → r.1.backend.config ≡ config
        → ((a : Arm C) → a.backend.config ≡ config → Counted (next a))
        → Counted (continue (λ _. next) r)
    Counted-continue next (ok _, a) e q = q a e
    Counted-continue next (err x, a) e q = λ ss h. absurd (cc)

    Counted-then :
        (act : Action (Arm C) (Unit {0})) (next : Action (Arm C) (List (MotorState D)))
        → ((a : Arm C) → (act a).1.backend.config ≡ a.backend.config)
        → ((a : Arm C) → a.backend.config ≡ config → Counted (next a))
        → (a : Arm C) → a.backend.config ≡ config
        → Counted ((act >> next) a)
    Counted-then act next kept q a e = Counted-continue next (act a) (kept a ∙ e) q

    Counted-states : (a : Arm C) → a.backend.config ≡ config → Counted (Arm.states k a, a)
    unfolding Arm.states
    Counted-states a e = λ ss h.
        let (c, _, r) = (states_iff k a.backend ss).0 h in
        length-Reports c a.backend.config.motors ss r ∙ ap (λ g. length g.motors) e

    begin_at-HasTargets :
        (r : Result (List (MotorState D)) × Arm C) (s : MitControl D C)
        → Counted r
        → begin_at k r ≡ ok s
        → HasTargets (length config.motors) s
    unfolding begin_at
    begin_at-HasTargets (err e, a) s q h = absurd (cc)
    begin_at-HasTargets (ok ss, a) s q h =
        subst (HasTargets (length config.motors)) (ok-injective h) (record {
          home = length-map ss _ ∙ q ss refl;
          requested = length-map ss _ ∙ q ss refl;
          active = length-map ss _ ∙ q ss refl;
        })

  begin-HasTargets :
      (config : ArmConfig) (s : MitControl D C)
      → begin k config ≡ ok s
      → HasTargets (length config.motors) s
  unfolding begin begin_arm Arm.connect Arm.send_zero_mit_all Arm.make send_zero_mit_all
      send_mit_all
  begin-HasTargets config s h =
      let reported : Action (Arm C) (List (MotorState D)) = λ a. (Arm.states k a, a) in
      let slept : Action (Arm C) (Unit {0}) = Arm.sleep k config.loop_period in
      let counted =
        Counted-then config (Arm.connect k) (Arm.send_zero_mit_all k >> (slept >> reported))
          (λ a. connect-config a.backend)
          (Counted-then config (Arm.send_zero_mit_all k) (slept >> reported)
            (λ a. on_control-config _ a.backend)
            (Counted-then config slept reported (λ a. refl) (Counted-states config)))
          (Arm.make config) refl in
      begin_at-HasTargets config (begin_arm k config (Arm.make config)) s counted h

  -- From the start of the program on, whatever lines each round of its loop reads and however the calls
  -- of the arm end, there is one home, one requested and one active target for each motor of the
  -- configuration.
  pub run-begin-HasTargets :
      (config : ArmConfig) (s : MitControl D C) (rounds : List (List Text × ℕ))
      → begin k config ≡ ok s
      → HasTargets (length config.motors) (run k rounds s).1
  run-begin-HasTargets config s rounds h =
      run-HasTargets (length config.motors) rounds s (begin-HasTargets config s h)
