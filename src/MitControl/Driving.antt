-- ===== src/MitControl/Driving.antt =====
-- What a round of the loop of dm_openarm/examples/arm_mit_control.cpp sends to the motors.
use dmopenarm.Base.{refl, subst, List, [], ◌∷◌, ◌≡◌, ◌∙◌, sym, some, map, length, length-map, All}
use dmopenarm.Double.{Double, zero_of}
use dmopenarm.Types.{MotorConfig}
use dmopenarm.Sdk.{Sdk, SdkLaws, MitFrame}
use dmopenarm.Backend.Delivery.{IsRegistered, Sends, frames_for, send_mit_all-Sends}
use dmopenarm.Backend
use dmopenarm.Arm
use dmopenarm.MitControl.{MitControl, approach_all, command_at, step_of, drive}
use dmopenarm.MitControl.Targets.{HasTargets, length-approach_all}

module _ {D F C H : Type 0} ⦃d : Double D⦄ (k : Sdk D F C H) (laws : SdkLaws k) where
  -- The frames of the MIT mode that pull each motor to the position at its place, with the gains 8 and 0.4,
  -- at rest and without a torque.
  abbrev pub pulls : List MotorConfig → List D → List (MitFrame F)
  pulls (m ∷ ms) (q ∷ qs) =
      record {
        can_id = m.can_id;
        kp = k.to_float (d.literal 8 1);
        kd = k.to_float (d.literal 4 10);
        q = k.to_float q;
        dq = k.to_float (zero_of d);
        tau = k.to_float (zero_of d);
      }
      ∷ pulls ms qs
  pulls _ _ = []

  frames_for-pulls :
      (ms : List MotorConfig) (qs : List D) → frames_for k laws ms (map command_at qs) ≡ pulls ms qs
  frames_for-pulls [] [] = refl
  frames_for-pulls [] (q ∷ qs) = refl
  frames_for-pulls (m ∷ ms) [] = refl
  frames_for-pulls (m ∷ ms) (q ∷ qs) = rw (frames_for-pulls ms qs) refl

  -- On a connected arm that finds its motors, and with one target of each list for each motor, a round
  -- returns, and has sent each motor, in order, one frame, which pulls it to its new active target with the
  -- gains 8 and 0.4, at rest and without a torque.
  pub drive-Sends :
      (s : MitControl D C) (c : C)
      → s.arm.backend.control ≡ some c
      → All (IsRegistered k laws c) s.arm.backend.config.motors
      → HasTargets (length s.arm.backend.config.motors) s
      → Sends k laws s.arm.backend c
          (pulls s.arm.backend.config.motors (drive k s).1.active_targets)
          ((drive k s).0, (drive k s).1.arm.backend)
  unfolding drive Arm.send_mit_all
  drive-Sends s c e a v =
      let active = approach_all (step_of s.arm.config) s.active_targets s.requested_targets in
      let count =
        length-map active command_at
        ∙ length-approach_all (step_of s.arm.config) s.active_targets s.requested_targets
            (v.active ∙ sym v.requested)
        ∙ v.active in
      let r = Backend.send_mit_all k (map command_at active) s.arm.backend in
      subst (λ f. Sends k laws s.arm.backend c f r)
        (frames_for-pulls s.arm.backend.config.motors active)
        (send_mit_all-Sends k laws s.arm.backend c (map command_at active) e a count)
