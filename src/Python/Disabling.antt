-- ===== src/Python/Disabling.antt =====
-- What `disable` of dm_openarm/python/dm_openarm/arm.py leaves.
use dmopenarm.Base.{
  ℕ, zero, suc, ◌≤◌, ◌≡◌, refl, sym, ap, subst, inl, inr, Bool, Bool-cases, true, false, none, some,
  List, arith, Exception, Result, ok, err, if◌then◌else◌,
}
use dmopenarm.Base.Action.{continue}
use dmopenarm.Double.{Double}
use dmopenarm.Types.{MitCommand}
use dmopenarm.Sdk.{Sdk}
use dmopenarm.Backend.{disconnect}
use dmopenarm.Arm
use dmopenarm.Arm.{Arm}
use dmopenarm.Controller.{
  Worker, absent, at_test, at_copy, at_send, at_sleep, at_catch, at_clear, finished, Controller,
}
use dmopenarm.Controller.Threads.{Client, System, is_alive, worker_step, work, begin_stop}
use dmopenarm.Controller.Outcome.{finish-stop, stop_end, zeroed}
use dmopenarm.Controller.Stopping.{
  steps_left, steps_left-le, steps_left-alive, worker_step-steps_left,
}
use dmopenarm.Controller.Sending.{steps, at_place}
use dmopenarm.Controller.Failing.{thrown-steps}
use dmopenarm.Python.Package.{on_arm, works, stop, stop_mit_loop, disable}

module _ {D C : Type 0} where
  -- It has stopped, and is told to.
  abbrev IsOver : Controller D C → Type 0
  IsOver s = (is_alive s.worker ≡ false) × (s.running ≡ false)

  -- Neither a thread nor the flag.
  abbrev pub IsQuiet : System D C → Type 0
  IsQuiet t = (t.controller.running ≡ false) × (t.controller.worker ≡ absent)

module _ {C : Type 0} where
  -- After a return there is no connection.
  abbrev pub Ends : Result (Unit {0}) → Arm C → Type 0
  Ends (ok _) a = a.backend.control ≡ none
  Ends (err e) a = Unit

module _ {D F C H : Type 0} ⦃d : Double D⦄ (k : Sdk D F C H) where
  -- A worker that does not run makes no step, and has none left.
  dead-step :
      (w : Worker D) (s : Controller D C)
      → is_alive w ≡ false
      → (work k w s ≡ s) × (steps_left w ≡ 0)
  unfolding work
  dead-step absent s off = (refl, refl)
  dead-step finished s off = (refl, refl)
  dead-step at_test s off = absurd (cc)
  dead-step at_copy s off = absurd (cc)
  dead-step (at_send snapshot) s off = absurd (cc)
  dead-step at_sleep s off = absurd (cc)
  dead-step (at_catch e) s off = absurd (cc)
  dead-step at_clear s off = absurd (cc)

  -- The worker ends in the steps that it has left.
  steps-IsOver :
      (n : ℕ) (s : Controller D C)
      → s.running ≡ false
      → steps_left s.worker ≤ n
      → IsOver (steps k n s)
  unfolding steps worker_step
  steps-IsOver zero s off h = (ground (arith, steps_left-alive s.worker), off)
  steps-IsOver (suc n) s off h = elim (Bool-cases (is_alive s.worker)) [
    | inl alive ↦
        let (less, off') = worker_step-steps_left k s off alive in
        steps-IsOver n (worker_step k s) off' (omega (arith, less, h))
    | inr over ↦
        let (same, none_left) = dead-step s.worker s over in
        subst (λ t. IsOver (steps k n t)) (sym same)
          (steps-IsOver n s off (omega (arith, none_left)))
  ]

  stop_end-absent :
      (s : Controller D C) (r : Result (Unit {0}) × Arm C)
      → s.running ≡ false
      → let t = stop_end k s r in (t.controller.running ≡ false) × (t.controller.worker ≡ absent)
  stop_end-absent s (ok tt, a) off = (off, refl)
  stop_end-absent s (err e, a) off = (off, refl)

  stop-IsQuiet : (t : System D C) → IsQuiet (stop k t).1
  unfolding begin_stop
  stop-IsQuiet t =
      let told : Controller D C = record t.controller { running = false } in
      let (over, off) = steps-IsOver 4 told refl (steps_left-le told.worker) in
      let s = steps k 4 told in
      subst IsQuiet (sym (finish-stop k s t.controller.running over))
        (stop_end-absent s (zeroed k t.controller.running s.arm) off)

  disconnected :
      (r : Result (Unit {0}) × System D C)
      → IsQuiet r.1
      → IsQuiet (continue (λ _. on_arm λ a. (ok tt, Arm.disable a)) r).1
  disconnected (ok _, t) v = v
  disconnected (err e, t) v = v

  unlinked :
      (r : Result (Unit {0}) × System D C)
      → let done = continue (λ _. on_arm λ a. (ok tt, Arm.disable a)) r in
        Ends done.0 done.1.controller.arm
  unfolding Arm.disable disconnect
  unlinked (ok _, t) = refl
  unlinked (err x, t) = tt

  -- While the loop runs, whatever steps the worker makes before it is told to stop, `disable`, where it
  -- returns, has cleared the flag, ended and joined the worker
  -- thread, and disconnected the arm; where it throws, the thread has ended all the same.
  pub disable-IsQuiet :
      (meanwhile : ℕ) (t : System D C)
      → t.controller.running ≡ true
      → IsQuiet (disable k meanwhile t).1
        × Ends (disable k meanwhile t).0 (disable k meanwhile t).1.controller.arm
  unfolding disable stop_mit_loop
  disable-IsQuiet meanwhile t on =
      let u = (works k meanwhile t).1 in
      let after : Bool → Result (Unit {0}) × System D C = λ b.
        continue (λ _. on_arm λ a. (ok tt, Arm.disable a)) (if b then stop k u else (ok tt, t)) in
      subst (λ b. IsQuiet (after b).1 × Ends (after b).0 (after b).1.controller.arm) (sym on)
        (disconnected (stop k u) (stop-IsQuiet u), unlinked (stop k u))

  -- Where the worker thread ended by an exception of a send, `disable` returns, and has disconnected the
  -- arm: it neither throws the exception, which stays stored, nor joins the thread.
  pub disable-silent :
      (s : Controller D C) (snapshot : List (MitCommand D)) (e : Exception) (client : Client)
      (meanwhile : ℕ)
      → let sent = Arm.send_mit_all k snapshot s.arm in
        sent.0 ≡ err e
        → disable k meanwhile
            (record { controller = steps k 3 (at_place (at_send snapshot) s); client = client })
          ≡ (
            ok tt,
            record {
              controller = record s {
                arm = Arm.disable sent.1;
                worker = finished;
                running = false;
                worker_exception = some e;
              };
              client = client;
            },
          )
  unfolding disable stop_mit_loop steps worker_step work
  disable-silent s snapshot e client meanwhile f =
      ap (λ t. disable k meanwhile (record { controller = t; client = client }))
        (thrown-steps k (at_place (at_send snapshot) s) e (Arm.send_mit_all k snapshot s.arm) f)
