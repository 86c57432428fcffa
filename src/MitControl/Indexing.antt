-- ===== src/MitControl/Indexing.antt =====
-- The indices of dm_openarm/examples/arm_mit_control.cpp in every state that its loop reaches.
use dmopenarm.Base.{
  ℕ, ◌+◌, ◌<◌, ◌≡◌, refl, ◌∙◌, subst, Bool, true, false, List, [], ◌∷◌, arith, length, length-map,
  Result, ok, err, if◌then◌else◌,
}
use dmopenarm.Base.Action.{Action, continue, ◌>>◌}
use dmopenarm.Base.Outcome.{>>=-eq-ok}
use dmopenarm.Text.{Text}
use dmopenarm.Double.{Double}
use dmopenarm.Types.{MotorConfig, ArmConfig, MotorState}
use dmopenarm.Sdk.{Sdk}
use dmopenarm.Backend.{send_mit_all, send_zero_mit_all}
use dmopenarm.Backend
use dmopenarm.Arm
use dmopenarm.Arm.{Arm}
use dmopenarm.MitControl.{
  MitControl, known_index, require_known_motor, motor_index, index_from, handle_lines, drive, pause,
  run, begin_at, begin_arm, begin,
}
use dmopenarm.MitControl.Targets.{drive-HasTargets, connect-config, on_control-config, ok-injective}
use dmopenarm.MitControl.InBounds.{IsOne, IsSound, length-states, handle_lines-IsSound}

module _ {D F C H : Type 0} ⦃d : Double D⦄ (k : Sdk D F C H) (show : D → Text) where
  drive-IsSound : (s : MitControl D C) → IsSound show s → IsSound show (drive k s).1
  unfolding drive Arm.send_mit_all send_mit_all
  drive-IsSound s v =
      let t = drive-HasTargets k (length s.arm.config.motors) s v.targets in
      record {
        one = on_control-config k _ s.arm.backend ∙ v.one;
        targets = record { home = t.home; requested = t.requested; active = t.active };
        prints = v.prints;
      }

  pause-IsSound : (left : ℕ) (s : MitControl D C) → IsSound show s → IsSound show (pause k left s).1
  pause-IsSound left s v = record {
    one = v.one;
    targets = record {
      home = v.targets.home;
      requested = v.targets.requested;
      active = v.targets.active;
    };
    prints = v.prints;
  }

  continue-IsSound :
      (next : Action (MitControl D C) (Unit {0})) (r : Result (Unit {0}) × MitControl D C)
      → ((s : MitControl D C) → IsSound show s → IsSound show (next s).1)
      → IsSound show r.1
      → IsSound show (continue (λ _. next) r).1
  continue-IsSound next (ok tt, s) q v = q s v
  continue-IsSound next (err e, s) q v = v

  if_running-IsSound :
      (on : Bool) (r : Result (Unit {0}) × MitControl D C) (s : MitControl D C)
      → IsSound show r.1
      → IsSound show s
      → IsSound show (if on then r else (ok tt, s)).1
  if_running-IsSound true r s v w = v
  if_running-IsSound false r s v w = w

  pub run-IsSound :
      (rounds : List (List Text × ℕ)) (s : MitControl D C)
      → IsSound show s
      → IsSound show (run k rounds s).1
  unfolding run
  run-IsSound [] s v = v
  run-IsSound ((lines, left) ∷ rounds) s v =
      let t = handle_lines k lines s in
      let next : Action (MitControl D C) (Unit {0}) = pause k left >> run k rounds in
      if_running-IsSound s.running (continue (λ _. next) (drive k t)) s
        (continue-IsSound next (drive k t)
          (λ u w. run-IsSound rounds (pause k left u).1 (pause-IsSound left u w))
          (drive-IsSound t (handle_lines-IsSound k show lines s v)))
        v

  -- The arm is one, and where states are returned, there is one for each of its motors.
  pub record IsCounted (r : Result (List (MotorState D)) × Arm C) : Type 0 where
    pub one : IsOne r.1
    pub counted : (ss : List (MotorState D)) → r.0 ≡ ok ss → length ss ≡ length r.1.config.motors

  then-IsCounted :
      (next : Action (Arm C) (List (MotorState D))) (r : Result (Unit {0}) × Arm C)
      → IsOne r.1
      → ((a : Arm C) → IsOne a → IsCounted (next a))
      → IsCounted (continue (λ _. next) r)
  then-IsCounted next (ok _, a) v q = q a v
  then-IsCounted next (err x, a) v q = record { one = v; counted = λ ss h. absurd (cc) }

  pub begin_arm-IsCounted :
      (config : ArmConfig) (a : Arm C) → IsOne a → IsCounted (begin_arm k config a)
  unfolding begin_arm Arm.connect Arm.send_zero_mit_all send_zero_mit_all send_mit_all
  begin_arm-IsCounted config a v =
      then-IsCounted _ (Arm.connect k a) (connect-config k a.backend ∙ v) λ b w.
        then-IsCounted _ (Arm.send_zero_mit_all k b) (on_control-config k _ b.backend ∙ w) λ c x.
          then-IsCounted (λ e. (Arm.states k e, e)) (Arm.sleep k config.loop_period c) x
            λ e y. record { one = y; counted = λ ss. length-states k show e ss y }

  pub begin_at-IsSound :
      (r : Result (List (MotorState D)) × Arm C) (s : MitControl D C)
      → IsCounted r
      → begin_at k r ≡ ok s
      → IsSound show s
  unfolding begin_at
  begin_at-IsSound (err e, a) s q h = absurd (cc)
  begin_at-IsSound (ok ss, a) s q h =
      let n = q.counted ss refl in
      subst (IsSound show) (ok-injective h) (record {
        one = q.one;
        targets = record {
          home = length-map ss _ ∙ n;
          requested = length-map ss _ ∙ n;
          active = length-map ss _ ∙ n;
        };
        prints = tt;
      })

  begin-IsSound : (config : ArmConfig) (s : MitControl D C) → begin k config ≡ ok s → IsSound show s
  unfolding begin Arm.make Backend.make
  begin-IsSound config s =
      begin_at-IsSound (begin_arm k config (Arm.make config)) s
        (begin_arm-IsCounted config (Arm.make config) refl)

module _ {D F C H : Type 0} ⦃d : Double D⦄ (k : Sdk D F C H) where
  index_from-bound :
      (i can_id : ℕ) (ms : List MotorConfig) (j : ℕ)
      → index_from i can_id ms ≡ ok j
      → j < i + length ms
  unfolding index_from
  index_from-bound i can_id [] j e = absurd (cc)
  index_from-bound i can_id (m ∷ ms) j e =
      let rest = index_from-bound (i + 1) can_id ms j in ground (arith, rest)

  -- From the start of the program on, whatever lines each round reads: where the two searches for a motor
  -- give an index, it is one of the home and of the requested targets, which `move` and `home` then index.
  pub known_index-InBounds :
      (config : ArmConfig) (s : MitControl D C) (rounds : List (List Text × ℕ)) (can_id i : ℕ)
      → begin k config ≡ ok s
      → let t = (run k rounds s).1 in
        (known_index can_id t).0 ≡ ok i
        → (i < length t.home_targets) × (i < length t.requested_targets)
  unfolding known_index motor_index
  known_index-InBounds config s rounds can_id i e found =
      let t = (run k rounds s).1 in
      let v = run-IsSound k (λ x. []) rounds s (begin-IsSound k (λ x. []) config s e) in
      let motors = t.arm.config.motors in
      let (id, known, index) =
        >>=-eq-ok (require_known_motor can_id motors) (λ id. motor_index can_id motors) found in
      let n : i < 0 + length motors = index_from-bound 0 can_id motors i index in
      (omega (arith, n, v.targets.home), omega (arith, n, v.targets.requested))
