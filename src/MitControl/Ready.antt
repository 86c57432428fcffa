-- ===== src/MitControl/Ready.antt =====
-- A moment of dm_openarm/examples/arm_mit_control.cpp at which its arm is connected and its targets are complete, which
-- its rounds lead to again.
use dmopenarm.Base.{
  ℕ, ◌≡◌, refl, sym, ap, subst, Bool, true, false, List, [], ◌∷◌, All, length, Result, ok,
  if◌then◌else◌,
}
use dmopenarm.Base.Action.{Action, ◌>>◌, continue, continue-of_ok}
use dmopenarm.Text.{Text}
use dmopenarm.Double.{Double}
use dmopenarm.Types.{MotorConfig}
use dmopenarm.Sdk.{Sdk, SdkLaws}
use dmopenarm.Backend.{Backend}
use dmopenarm.Backend.Delivery.{IsRegistered}
use dmopenarm.Program.Live.{IsLive, IsLive-Sends, Does-sleep}
use dmopenarm.MitControl.{MitControl, handle_lines, drive, pause, run}
use dmopenarm.MitControl.Handling.{handle_lines-Handles}
use dmopenarm.MitControl.Targets.{HasTargets, handle_lines-HasTargets, drive-HasTargets}
use dmopenarm.MitControl.Driving.{drive-Sends}

module _ {D F C H : Type 0} ⦃d : Double D⦄ (k : Sdk D F C H) (laws : SdkLaws k)
    (ms : List MotorConfig) where
  pub record IsReady (s : MitControl D C) : Type 0 where
    pub object : C
    pub live : IsLive k laws ms s.arm.backend object
    pub targets : HasTargets (length ms) s

  handle_lines-IsReady :
      (lines : List Text) (s : MitControl D C) → IsReady s → IsReady (handle_lines k lines s)
  handle_lines-IsReady lines s v = record {
    object = v.object;
    live =
        subst (λ a. IsLive k laws ms a.backend v.object) (sym (handle_lines-Handles k lines s).arm)
          v.live;
    targets = handle_lines-HasTargets k (length ms) lines s v.targets;
  }

  pub drive-IsReady :
      (s : MitControl D C) → IsReady s → ((drive k s).0 ≡ ok tt) × IsReady (drive k s).1
  drive-IsReady s v =
      let b = s.arm.backend in
      let r : Result (Unit {0}) × Backend C = ((drive k s).0, (drive k s).1.arm.backend) in
      let sent =
        drive-Sends k laws s v.object v.live.connected
          (subst (All (IsRegistered k laws v.object)) (sym v.live.motors) v.live.registered)
          (subst (λ n. HasTargets n s) (sym (ap length v.live.motors)) v.targets) in
      (
        sent.returned,
        record {
          object = sent.after;
          live = IsLive-Sends k laws ms b v.object _ r v.live sent;
          targets = drive-HasTargets k (length ms) s v.targets;
        },
      )

  pub pause-IsReady : (left : ℕ) (s : MitControl D C) → IsReady s → IsReady (pause k left s).1
  pause-IsReady left s v =
      let b = s.arm.backend in
      let asleep : Result (Unit {0}) × Backend C =
        ((pause k left s).0, (pause k left s).1.arm.backend) in
      let slept = Does-sleep k laws ms (record { arm = s.arm; output = [] }) v.object left v.live in
      record {
        object = slept.after;
        live = IsLive-Sends k laws ms b v.object [] asleep v.live slept;
        targets = record {
          home = v.targets.home;
          requested = v.targets.requested;
          active = v.targets.active;
        };
      }

  if_running-returns :
      (on : Bool) (r : Result (Unit {0}) × MitControl D C) (s : MitControl D C)
      → r.0 ≡ ok tt
      → (if on then r else (ok tt, s)).0 ≡ ok tt
  if_running-returns true r s e = e
  if_running-returns false r s e = refl

  pub run-returns :
      (rounds : List (List Text × ℕ)) (s : MitControl D C) → IsReady s → (run k rounds s).0 ≡ ok tt
  unfolding run
  run-returns [] s v = refl
  run-returns ((lines, left) ∷ rounds) s v =
      let t = handle_lines k lines s in
      let (returned, ready) = drive-IsReady t (handle_lines-IsReady lines s v) in
      let next : Action (MitControl D C) (Unit {0}) = pause k left >> run k rounds in
      if_running-returns s.running (continue (λ _. next) (drive k t)) s (
        rw (continue-of_ok (λ _. next) (drive k t) tt returned) (
          run-returns rounds (pause k left (drive k t).1).1
            (pause-IsReady left (drive k t).1 ready)))
