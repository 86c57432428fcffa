-- ===== src/Controller/Outcome.antt =====
-- What `start` and `stop` of dm_openarm/src/mit_loop_controller.cpp end with, once the worker they join has ended.
use dmopenarm.Base.{
  ℕ, zero, suc, ◌≡◌, ◌∙◌, refl, ap, Bool, true, false, Option, none, some, Result, ok, err,
  Exception,
}
use dmopenarm.Double.{Double}
use dmopenarm.Sdk.{Sdk}
use dmopenarm.Arm
use dmopenarm.Arm.{Arm}
use dmopenarm.Controller.{absent, at_test, Controller}
use dmopenarm.Controller.Threads.{
  Client, started, stopped, start_join, start_spawn, stop_join, stop_zero, stop_rethrow, System,
  is_alive, join, after_zero, rethrow, goes_on, client_step,
}

module _ {D F C H : Type 0} ⦃d : Double D⦄ (k : Sdk D F C H) where
  -- The client alone, for at most `n` steps.
  unfoldable pub finish : ℕ → System D C → System D C
  finish zero t = t
  finish (suc n) t = elim (client_step k t) [ none ↦ t | some u ↦ finish n u ]

  -- The controller after the join.
  abbrev pub joined : Controller D C → Controller D C
  joined s = record s { worker = absent }

  abbrev pub thrown : Option Exception → Result (Unit {0})
  thrown none = ok tt
  thrown (some e) = err e

  abbrev pub zeroed : Bool → Arm C → Result (Unit {0}) × Arm C
  zeroed true arm = Arm.send_zero_mit_all k arm
  zeroed false arm = (ok tt, arm)

  abbrev pub stop_end : Controller D C → Result (Unit {0}) × Arm C → System D C
  stop_end s (ok tt, arm) = record {
    controller = record (joined s) { arm = arm; worker_exception = none };
    client = stopped (thrown s.worker_exception);
  }
  stop_end s (err e, arm) = record {
    controller = record (joined s) { arm = arm };
    client = stopped (err e);
  }

  abbrev pub start_end : Controller D C → System D C
  start_end s = record {
    controller = record s { running = true; worker = at_test; worker_exception = none };
    client = started (ok tt);
  }

  finish-rethrow :
      (s : Controller D C)
      → finish 1 (record { controller = joined s; client = stop_rethrow })
        ≡ stop_end s (ok tt, s.arm)
  unfolding finish client_step goes_on rethrow
  finish-rethrow s = stored s.worker_exception refl
    where
      stored :
          (x : Option Exception)
          → s.worker_exception ≡ x
          → rethrow k x (record { controller = joined s; client = stop_rethrow }) ≡ record {
            controller = record (joined s) { worker_exception = none };
            client = stopped (thrown x);
          }
      stored none e =
          ap
            (λ x. record {
              controller = record (joined s) { worker_exception = x };
              client = stopped (ok tt);
            })
            e
      stored (some x) e = refl

  finish-after_zero :
      (s : Controller D C) (r : Result (Unit {0}) × Arm C)
      → finish 1 (after_zero k (record { controller = joined s; client = stop_zero true }) r)
        ≡ stop_end s r
  unfolding finish client_step goes_on after_zero
  finish-after_zero s (ok tt, arm) = finish-rethrow (record s { arm = arm })
  finish-after_zero s (err e, arm) = refl

  finish-zero :
      (was_running : Bool) (s : Controller D C)
      → finish 2 (record { controller = joined s; client = stop_zero was_running })
        ≡ stop_end s (zeroed was_running s.arm)
  unfolding finish client_step goes_on
  finish-zero false s = finish-rethrow s
  finish-zero true s = finish-after_zero s (Arm.send_zero_mit_all k s.arm)

  joins :
      (c : Client) (t : System D C)
      → is_alive t.controller.worker ≡ false
      → join k c t ≡ some (record { controller = joined t.controller; client = c })
  unfolding join
  joins c t over = rw over refl

  onwards :
      (t : System D C) (n : ℕ) {u : System D C}
      → client_step k t ≡ some u
      → finish (suc n) t ≡ finish n u
  unfolding finish
  onwards t n e = ap (λ o. elim o [ none ↦ t | some u ↦ finish n u ]) e

  -- Once the worker has ended, `stop` ends: it sends the zero commands exactly when it found `running_`
  -- set; if that throws, `stop` throws this and keeps the worker's exception; if not, it throws the
  -- worker's exception, where there is one, which it clears. No worker thread is left in either case.
  pub finish-stop :
      (s : Controller D C) (was_running : Bool)
      → is_alive s.worker ≡ false
      → finish 3 (record { controller = s; client = stop_join was_running })
        ≡ stop_end s (zeroed was_running s.arm)
  unfolding finish client_step goes_on join
  finish-stop s was_running over =
      onwards (record { controller = s; client = stop_join was_running }) 2
        (joins (stop_zero was_running) (record { controller = s; client = stop_join was_running })
          over)
      ∙ finish-zero was_running s

  -- Once an earlier worker has ended, `start` ends: `running_` is set, a new worker thread is at its first
  -- test of it, an exception of the earlier one is forgotten, and the arm and the commands are kept.
  pub finish-start :
      (s : Controller D C)
      → is_alive s.worker ≡ false
      → finish 2 (record { controller = s; client = start_join }) ≡ start_end s
  unfolding finish client_step goes_on join
  finish-start s over =
      onwards (record { controller = s; client = start_join }) 1
        (joins start_spawn (record { controller = s; client = start_join }) over)
