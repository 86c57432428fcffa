-- ===== src/Controller/Methods.antt =====
-- The methods of dm_openarm/src/mit_loop_controller.cpp that read the controller, and its destructor.
use dmopenarm.Base.{◌≡◌, refl, ap, ◌∙◌, Bool, false, List, Result, ok, err}
use dmopenarm.Double.{Double}
use dmopenarm.Types.{MitCommand}
use dmopenarm.Sdk.{Sdk}
use dmopenarm.Arm.{Arm}
use dmopenarm.Controller.{absent, Controller}
use dmopenarm.Controller.Threads.{System, stopped, is_alive, begin_stop}
use dmopenarm.Controller.Outcome.{finish, stop_end, zeroed, finish-stop}

module _ {D C : Type 0} where
  abbrev pub running : Controller D C → Bool
  running s = s.running

  abbrev pub commands : Controller D C → List (MitCommand D)
  commands s = s.commands

module _ {D F C H : Type 0} ⦃d : Double D⦄ (k : Sdk D F C H) where
  -- The destructor, where the join need not wait: `stop`, whose exception is dropped.
  unfoldable pub destroy : System D C → System D C
  unfolding begin_stop
  destroy t = record (finish k 3 (begin_stop k t)) { client = stopped (ok tt) }

  stop_end-worker :
      (s : Controller D C) (r : Result (Unit {0}) × Arm C)
      → (stop_end k s r).controller.worker ≡ absent
  stop_end-worker s (ok _, arm) = refl
  stop_end-worker s (err e, arm) = refl

  -- The destructor leaves no worker thread.
  destroy-worker :
      (t : System D C)
      → is_alive t.controller.worker ≡ false
      → (destroy t).controller.worker ≡ absent
  unfolding destroy begin_stop
  destroy-worker t over =
      let s = record (t.controller) { running = false } in
      ap (λ u. u.controller.worker) (finish-stop k s t.controller.running over)
      ∙ stop_end-worker s (zeroed k t.controller.running t.controller.arm)
