-- ===== src/Program/Running.antt =====
-- What the loops of the programs under dm_openarm/examples send, on an arm that is connected and finds
-- its motors.
use dmopenarm.Base.{
  refl, All, ℕ, zero, suc, ◌≡◌, ◌∙◌, subst, List, [], ◌∷◌, ◌++◌, append-nil, length, length-map,
}
use dmopenarm.Base.Action.{◌>>=◌}
use dmopenarm.Double.{Double, zero_of}
use dmopenarm.Types.{MotorConfig, ArmConfig, MitCommand, MotorState}
use dmopenarm.Sdk.{Sdk, SdkLaws, MitFrame}
use dmopenarm.Backend.Delivery.{IsRegistered, frames_for}
use dmopenarm.Arm
use dmopenarm.Program.{Program, write, state_lines, send_zero, on_arm, read_states, sleep}
use dmopenarm.Program.Live.{
  reported, length-reported, states-reported, IsLive, Does, Does-write, Does-sleep,
  Does-send_mit_all, zero_frames, Does-send_zero, Does-read, Does-then,
}
use dmopenarm.Program.Check.{check_round, check_rounds}
use dmopenarm.Program.Hold.{hold_command, hold_commands, hold_round, hold_rounds}

-- The same frames again and again.
abbrev pub repeated : {A : Type 0} → ℕ → List A → List A
repeated zero xs = []
repeated (suc n) xs = xs ++ repeated n xs

module _ {D F C H : Type 0} ⦃d : Double D⦄ (k : Sdk D F C H) (laws : SdkLaws k) where
  module _ (ms : List MotorConfig) where
    Does-check_round :
        (config : ArmConfig) (p : Program D C) (c : C)
        → IsLive k laws ms p.arm.backend c
        → Does k laws p c (zero_frames k laws ms) (check_round k config p)
    unfolding check_round
    Does-check_round config p c v =
        subst (λ xs. Does k laws p c xs (check_round k config p))
          (append-nil (zero_frames k laws ms))
          (Does-then k laws ms p c (zero_frames k laws ms) [] (send_zero k) _ v
            (Does-send_zero k laws ms p c v)
            λ q e w. Does-read k laws ms q e [] _ w λ ss n.
              Does-then k laws ms q e [] [] (write (state_lines ss)) (sleep k config.loop_period) w
                (Does-write k laws ms q e (state_lines ss) w)
                (λ t f u. Does-sleep k laws ms t f config.loop_period u))

    -- From any moment at which the arm is connected and finds its motors, `n` rounds of the loop of
    -- check_comm.cpp return, and have sent each motor the zero command `n` times, in rounds over the
    -- motors in order.
    pub check_rounds-Does :
        (n : ℕ) (config : ArmConfig) (p : Program D C) (c : C)
        → IsLive k laws ms p.arm.backend c
        → Does k laws p c (repeated n (zero_frames k laws ms)) (check_rounds k n config p)
    unfolding check_rounds
    check_rounds-Does zero config p c v = Does-write k laws ms p c [] v
    check_rounds-Does (suc n) config p c v =
        Does-then k laws ms p c (zero_frames k laws ms) (repeated n (zero_frames k laws ms))
          (check_round k config) (check_rounds k n config) v (Does-check_round config p c v)
          (check_rounds-Does n config)

    Does-hold_round :
        (commands : List (MitCommand D)) (left : ℕ) (p : Program D C) (c : C)
        → length commands ≡ length ms
        → IsLive k laws ms p.arm.backend c
        → Does k laws p c (frames_for k laws ms commands) (hold_round k commands left p)
    unfolding hold_round
    Does-hold_round commands left p c n v =
        subst (λ xs. Does k laws p c xs (hold_round k commands left p))
          (append-nil (frames_for k laws ms commands))
          (Does-then k laws ms p c (frames_for k laws ms commands) []
            (on_arm (Arm.send_mit_all k commands)) _ v
            (Does-send_mit_all k laws ms p c commands v n)
            λ q e w. Does-read k laws ms q e [] _ w λ ss m.
              Does-then k laws ms q e [] [] (write (state_lines ss)) (sleep k left) w
                (Does-write k laws ms q e (state_lines ss) w)
                (λ t f u. Does-sleep k laws ms t f left u))

    -- The loop of hold_position.cpp on the commands made of some states.
    pub hold_rounds-Does :
        (rounds : List ℕ) (states : List (MotorState D)) (p : Program D C) (c : C)
        → length states ≡ length ms
        → IsLive k laws ms p.arm.backend c
        → Does k laws p c
            (repeated (length rounds) (frames_for k laws ms (hold_commands states)))
            (hold_rounds k rounds (hold_commands states) p)
    unfolding hold_rounds hold_commands
    hold_rounds-Does [] states p c m v = Does-write k laws ms p c [] v
    hold_rounds-Does (left ∷ rounds) states p c m v =
        let commands = hold_commands states in
        let sent = frames_for k laws ms commands in
        Does-then k laws ms p c sent (repeated (length rounds) sent) (hold_round k commands left)
          (hold_rounds k rounds commands) v
          (Does-hold_round commands left p c (length-map states hold_command ∙ m) v)
          (λ q e w. hold_rounds-Does rounds states q e m w)

  -- The frames that hold each motor at the position that the library reads from it, with the gains 2 and
  -- 0.5, at rest and without a torque.
  abbrev pub held_frames :
      (c : C) (ms : List MotorConfig) → All (IsRegistered k laws c) ms → List (MitFrame F)
  held_frames c [] _ = []
  held_frames c (m ∷ ms) (v, vs) =
      record {
        can_id = m.can_id;
        kp = k.to_float (d.literal 2 1);
        kd = k.to_float (d.literal 5 10);
        q = k.to_float (k.to_double (k.get_position c v.handle));
        dq = k.to_float (zero_of d);
        tau = k.to_float (zero_of d);
      }
      ∷ held_frames c ms vs

  frames_for-held :
      (c : C) (ms : List MotorConfig) (v : All (IsRegistered k laws c) ms)
      → frames_for k laws ms (hold_commands (reported k laws c ms v)) ≡ held_frames c ms v
  unfolding hold_commands
  frames_for-held c [] v = refl
  frames_for-held c (m ∷ ms) (v, vs) = rw (frames_for-held c ms vs) refl

  -- From any moment at which the arm is connected and finds its motors: the states are read and the loop
  -- of hold_position.cpp, interrupted after some rounds, returns. In each round it has sent each motor one
  -- frame, which holds it at the position that the library read from it before the loop, with the gains 2
  -- and 0.5, at rest and without a torque.
  pub hold_rounds-held_frames :
      (ms : List MotorConfig) (rounds : List ℕ) (p : Program D C) (c : C)
      (v : IsLive k laws ms p.arm.backend c)
      → Does k laws p c
          (repeated (length rounds) (held_frames c ms v.registered))
          ((read_states k >>= λ states. hold_rounds k rounds (hold_commands states)) p)
  hold_rounds-held_frames ms rounds p c v =
      let ss = reported k laws c ms v.registered in
      rw (states-reported k laws ms p c v) (
        subst
          (λ f.
            Does k laws p c (repeated (length rounds) f)
              (hold_rounds k rounds (hold_commands ss) p))
          (frames_for-held c ms v.registered)
          (hold_rounds-Does ms rounds ss p c (length-reported k laws c ms v.registered) v))
