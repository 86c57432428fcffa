-- ===== src/Controller/Failing.antt =====
-- What becomes of an exception that a send throws in the thread of dm_openarm/src/mit_loop_controller.cpp.
use dmopenarm.Base.{◌≡◌, ◌∙◌, refl, ap, false, none, some, List, Exception, Result, ok, err}
use dmopenarm.Double.{Double}
use dmopenarm.Types.{MitCommand}
use dmopenarm.Sdk.{Sdk}
use dmopenarm.Arm
use dmopenarm.Arm.{Arm}
use dmopenarm.Controller.{absent, at_send, finished, Controller}
use dmopenarm.Controller.Threads.{Client, stopped, after_send, work, worker_step, begin_stop}
use dmopenarm.Controller.Outcome.{finish, finish-stop}
use dmopenarm.Controller.Sending.{steps, at_place}

module _ {D F C H : Type 0} ⦃d : Double D⦄ (k : Sdk D F C H) where
  pub thrown-steps :
      (s : Controller D C) (e : Exception) (r : Result (Unit {0}) × Arm C)
      → r.0 ≡ err e
      → steps k 2 (after_send k s r)
        ≡ record s { arm = r.1; worker = finished; running = false; worker_exception = some e }
  unfolding steps worker_step work after_send
  thrown-steps s e (ok _, a) f = absurd (cc)
  thrown-steps s e (err x, a) f =
      ap (λ (r : Result (Unit {0})). steps k 2 (after_send k s (r, a))) f

  -- Where `send_mit_all` throws in the worker thread, the thread has ended three steps later, and the next
  -- call of `stop` throws this exception: it sends nothing, clears the exception and leaves no thread.
  pub stop-rethrows :
      (s : Controller D C) (snapshot : List (MitCommand D)) (e : Exception) (client : Client)
      → let sent = Arm.send_mit_all k snapshot s.arm in
        sent.0 ≡ err e
        → finish k 3 (
            begin_stop k
              (record { controller = steps k 3 (at_place (at_send snapshot) s); client = client }))
          ≡ record {
            controller = record s {
              arm = sent.1;
              worker = absent;
              running = false;
              worker_exception = none;
            };
            client = stopped (err e);
          }
  unfolding steps worker_step work begin_stop
  stop-rethrows s snapshot e client f =
      let sent = Arm.send_mit_all k snapshot s.arm in
      let over : Controller D C = record s {
        arm = sent.1;
        worker = finished;
        running = false;
        worker_exception = some e;
      } in
      ap (λ t. finish k 3 (begin_stop k (record { controller = t; client = client })))
        (thrown-steps (at_place (at_send snapshot) s) e sent f)
      ∙ finish-stop k over false refl
