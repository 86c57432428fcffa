-- ===== src/Controller/Sending.antt =====
-- What the loop of dm_openarm/src/mit_loop_controller.cpp sends.
use dmopenarm.Base.{
  ℕ, zero, suc, ◌≤◌, ◌≡◌, refl, sym, ap, ◌∙◌, subst, Bool, true, false, some, List, [], ◌++◌,
  append_assoc, arith, length, All, Result, ok, if◌then◌else◌,
}
use dmopenarm.Double.{Double}
use dmopenarm.Types.{MotorConfig, MitCommand}
use dmopenarm.Sdk.{Sdk, SdkLaws, MitFrame}
use dmopenarm.Backend
use dmopenarm.Backend.Delivery.{
  IsRegistered, IsRegistered-SameMotors, Sends, frames_for, send_mit_all-Sends,
}
use dmopenarm.Program.Live.{IsLive}
use dmopenarm.Arm
use dmopenarm.Arm.{Arm}
use dmopenarm.Controller.{
  Worker, absent, at_test, at_copy, at_send, at_sleep, at_catch, at_clear, finished, Controller,
}
use dmopenarm.Controller.Threads.{after_send, work, worker_step}
use dmopenarm.Controller.Invariant.{CopyFits}

-- The worker is in its loop.
abbrev pub is_looping : {D : Type 0} → Worker D → Bool
is_looping at_test = true
is_looping at_copy = true
is_looping (at_send _) = true
is_looping at_sleep = true
is_looping _ = false

module _ {D C : Type 0} where
  abbrev pub at_place : Worker D → Controller D C → Controller D C
  at_place w s = record s { worker = w }

  abbrev pub with_object : C → Controller D C → Controller D C
  with_object c s = record s {
    arm = record s.arm { backend = record s.arm.backend { control = some c } };
  }

module _ {D F C H : Type 0} ⦃d : Double D⦄ (k : Sdk D F C H) where
  -- The worker alone, for some steps.
  unfoldable pub steps : ℕ → Controller D C → Controller D C
  steps zero s = s
  steps (suc n) s = steps n (worker_step k s)

module _ {D F C H : Type 0} ⦃d : Double D⦄ (k : Sdk D F C H) (laws : SdkLaws k)
    (ms : List MotorConfig) where
  open laws use {frames}

  -- After some steps of the worker it is behind a send, this much was sent, and the rest is as before.
  pub record SendsIn (n : ℕ) (from s : Controller D C) (c : C) (sent : List (MitFrame F))
      : Type 0 where
    pub object : C
    pub sleeps : steps k n from ≡ at_place at_sleep (with_object object s)
    pub delivered : frames object ≡ frames c ++ sent
    pub live : IsLive k laws ms (with_object object s).arm.backend object

  from_send :
      (s : Controller D C) (c : C) (snapshot : List (MitCommand D))
      → IsLive k laws ms s.arm.backend c
      → length snapshot ≡ length ms
      → SendsIn 1 (at_place (at_send snapshot) s) s c (frames_for k laws ms snapshot)
  unfolding steps worker_step work after_send Arm.send_mit_all
  from_send s c snapshot v n =
      let b = s.arm.backend in
      let sent =
        subst
          (λ ns.
            Sends k laws b c (frames_for k laws ns snapshot) (Backend.send_mit_all k snapshot b))
          v.motors
          (send_mit_all-Sends k laws b c snapshot v.connected
            (subst (All (IsRegistered k laws c)) (sym v.motors) v.registered)
            (n ∙ sym (ap length v.motors))) in
      let whole : Backend.send_mit_all k snapshot b
          ≡ (ok tt, record b { control = some sent.after }) =
        λ i. (sent.returned i, sent.backend i) in
      record {
        object = sent.after;
        sleeps =
            ap
              (λ (r : Result (Unit {0}) × Backend.Backend C).
                after_send k (at_place (at_send snapshot) s) (r.0, record s.arm { backend = r.1 }))
              whole;
        delivered = sent.delivered;
        live = record {
          connected = refl;
          motors = v.motors;
          registered = IsRegistered-SameMotors k laws c sent.after ms sent.same v.registered;
        };
      }

  from_copy :
      (s : Controller D C) (c : C)
      → IsLive k laws ms s.arm.backend c
      → length s.commands ≡ length ms
      → SendsIn 2 (at_place at_copy s) s c (frames_for k laws ms s.commands)
  unfolding steps worker_step work
  from_copy s c v n =
      let r = from_send s c s.commands v n in
      record { object = r.object; sleeps = r.sleeps; delivered = r.delivered; live = r.live }

  from_test :
      (s : Controller D C) (c : C)
      → IsLive k laws ms s.arm.backend c
      → s.running ≡ true
      → length s.commands ≡ length ms
      → SendsIn 3 (at_place at_test s) s c (frames_for k laws ms s.commands)
  unfolding steps worker_step work
  from_test s c v on n =
      let r = from_copy s c v n in
      record {
        object = r.object;
        sleeps = ap (λ b. steps k 2 (at_place (if b then at_copy else finished) s)) on ∙ r.sleeps;
        delivered = r.delivered;
        live = r.live;
      }

  from_sleep :
      (s : Controller D C) (c : C)
      → IsLive k laws ms s.arm.backend c
      → s.running ≡ true
      → length s.commands ≡ length ms
      → SendsIn 4 (at_place at_sleep s) s c (frames_for k laws ms s.commands)
  unfolding steps worker_step work
  from_sleep s c v on n =
      let r = from_test s c v on n in
      record { object = r.object; sleeps = r.sleeps; delivered = r.delivered; live = r.live }

  -- The frames of a copy of the commands that the worker has made and not yet sent.
  abbrev pub held : Worker D → List (MitFrame F)
  held (at_send snapshot) = frames_for k laws ms snapshot
  held _ = []

  abbrev pub steps_to_sleep : Worker D → ℕ
  steps_to_sleep at_copy = 2
  steps_to_sleep at_test = 3
  steps_to_sleep at_sleep = 4
  steps_to_sleep _ = 5

  steps_to_sleep-le : (w : Worker D) → steps_to_sleep w ≤ 5
  steps_to_sleep-le at_copy = omega arith
  steps_to_sleep-le at_test = omega arith
  steps_to_sleep-le at_sleep = omega arith
  steps_to_sleep-le (at_send snapshot) = omega arith
  steps_to_sleep-le absent = omega arith
  steps_to_sleep-le (at_catch e) = omega arith
  steps_to_sleep-le at_clear = omega arith
  steps_to_sleep-le finished = omega arith

  from_place :
      (w : Worker D) (s : Controller D C) (c : C)
      → IsLive k laws ms s.arm.backend c
      → s.running ≡ true
      → is_looping w ≡ true
      → length s.commands ≡ length ms
      → CopyFits (length ms) w
      → SendsIn (steps_to_sleep w) (at_place w s) s c (held w ++ frames_for k laws ms s.commands)
  unfolding steps
  from_place at_copy s c v on l n f = from_copy s c v n
  from_place at_test s c v on l n f = from_test s c v on n
  from_place at_sleep s c v on l n f = from_sleep s c v on n
  from_place (at_send snapshot) s c v on l n f =
      let first = from_send s c snapshot v f in
      let onward = from_sleep (with_object first.object s) first.object first.live on n in
      record {
        object = onward.object;
        sleeps = ap (steps k 4) first.sleeps ∙ onward.sleeps;
        delivered =
            onward.delivered
            ∙ ap (λ g. g ++ frames_for k laws ms s.commands) first.delivered
            ∙ append_assoc (frames c) (frames_for k laws ms snapshot)
                (frames_for k laws ms s.commands);
        live = onward.live;
      }
  from_place absent s c v on l n f = absurd (cc)
  from_place (at_catch e) s c v on l n f = absurd (cc)
  from_place at_clear s c v on l n f = absurd (cc)
  from_place finished s c v on l n f = absurd (cc)

  -- While the loop runs on an arm that is connected and finds its motors, with one command for each motor
  -- in the table and in a copy that the worker holds, and no other thread steps in between: at most five
  -- steps of the worker from anywhere in the loop, behind this copy, it has sent each motor the command at
  -- its place in the table, and is about to sleep, with nothing else changed.
  pub newest-SendsIn :
      (s : Controller D C) (c : C)
      → IsLive k laws ms s.arm.backend c
      → s.running ≡ true
      → is_looping s.worker ≡ true
      → length s.commands ≡ length ms
      → CopyFits (length ms) s.worker
      → (n : ℕ) × (n ≤ 5) × SendsIn n s s c (held s.worker ++ frames_for k laws ms s.commands)
  newest-SendsIn s c v on l n f =
      (steps_to_sleep s.worker, steps_to_sleep-le s.worker, from_place s.worker s c v on l n f)
