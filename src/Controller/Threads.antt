-- ===== src/Controller/Threads.antt =====
-- The threads of dm_openarm/src/mit_loop_controller.cpp as steps: the worker's `worker_loop`, and the client's
-- calls of `start` and `stop`, which wait for the worker when they join it. One step is what a thread
-- does to the shared state at once: a read or write of the atomic `running_`, the body of a lock, a
-- call of the arm, a join. `set_command` and `set_all_commands`, of any thread, come in between.
use dmopenarm.Base.{
  ℕ, ◌≡◌, Bool, true, false, Option, none, some, List, if◌then◌else◌, Exception, invalid_argument,
  Result, ok, err,
}
use dmopenarm.Text.{codes}
use dmopenarm.Double.{Double, zero_of}
use dmopenarm.Types.{MitCommand}
use dmopenarm.Sdk.{Sdk}
use dmopenarm.Arm
use dmopenarm.Arm.{Arm}
use dmopenarm.Controller.{
  Worker, absent, at_test, at_copy, at_send, at_sleep, at_catch, at_clear, finished, Controller,
  make, set_command, set_all_commands,
}

-- Where the client thread is: outside of `start` and `stop`, with what the last of them returned or
-- threw, or inside. Inside `stop`, the Boolean is `was_running`.
pub data Client : Type 0 where
  fresh : Client
  started : Result (Unit {0}) → Client
  stopped : Result (Unit {0}) → Client
  start_join : Client
  start_spawn : Client
  stop_join : Bool → Client
  stop_zero : Bool → Client
  stop_rethrow : Client

pub record System (D C : Type 0) : Type 0 where
  pub controller : Controller D C
  pub client : Client

abbrev pub is_idle : Client → Bool
is_idle fresh = true
is_idle (started _) = true
is_idle (stopped _) = true
is_idle start_join = false
is_idle start_spawn = false
is_idle (stop_join _) = false
is_idle (stop_zero _) = false
is_idle stop_rethrow = false

-- The thread runs: it has steps to make.
abbrev pub is_alive : {D : Type 0} → Worker D → Bool
is_alive absent = false
is_alive finished = false
is_alive at_test = true
is_alive at_copy = true
is_alive (at_send _) = true
is_alive at_sleep = true
is_alive (at_catch _) = true
is_alive at_clear = true

abbrev pub bad_frequency : Exception
bad_frequency = invalid_argument (codes "MIT loop frequency must be positive")

abbrev pub with_controller : {D C : Type 0} → System D C → Controller D C → System D C
with_controller t s = record t { controller = s }

module _ {D F C H : Type 0} ⦃d : Double D⦄ (k : Sdk D F C H) where
  -- What the worker does with what `send_mit_all` returned or threw.
  unfoldable pub after_send : Controller D C → Result (Unit {0}) × Arm C → Controller D C
  after_send s (ok tt, arm) = record s { arm = arm; worker = at_sleep }
  after_send s (err e, arm) = record s { arm = arm; worker = at_catch e }

  -- One step of `worker_loop`, where the worker is at `w`. What the hardware does while it sleeps is
  -- part of the next call of the arm.
  unfoldable pub work : Worker D → Controller D C → Controller D C
  unfolding after_send
  work at_test s = record s { worker = if s.running then at_copy else finished }
  work at_copy s = record s { worker = at_send s.commands }
  work (at_send snapshot) s = after_send s (Arm.send_mit_all k snapshot s.arm)
  work at_sleep s = record s { worker = at_test }
  work (at_catch e) s = record s { worker = at_clear; worker_exception = some e }
  work at_clear s = record s { worker = finished; running = false }
  work absent s = s
  work finished s = s

  unfoldable pub worker_step : Controller D C → Controller D C
  unfolding work
  worker_step s = work s.worker s

  -- The call of `start`, up to its join.
  unfoldable pub begin_start : D → System D C → System D C
  begin_start hz t =
      if d.le hz (zero_of d)
      then record t { client = started (err bad_frequency) }
      else if t.controller.running
      then record t { client = started (ok tt) }
      else record t { client = start_join }

  -- The call of `stop`: `running_.exchange(false)`.
  unfoldable pub begin_stop : System D C → System D C
  begin_stop t = record t {
    controller = record (t.controller) { running = false };
    client = stop_join t.controller.running;
  }

  -- `if(worker_.joinable()) worker_.join();` waits while the thread runs.
  unfoldable pub join : Client → System D C → Option (System D C)
  join then_at t =
      if is_alive t.controller.worker
      then none
      else some
          (record t { controller = record (t.controller) { worker = absent }; client = then_at })

  -- `if(was_running) arm_.send_zero_mit_all();`, and `stop` ends if that throws.
  unfoldable pub after_zero : System D C → Result (Unit {0}) × Arm C → System D C
  after_zero t (ok tt, arm) = record t {
    controller = record (t.controller) { arm = arm };
    client = stop_rethrow;
  }
  after_zero t (err e, arm) = record t {
    controller = record (t.controller) { arm = arm };
    client = stopped (err e);
  }

  -- `if(worker_exception_)`: it is cleared and thrown again.
  unfoldable pub rethrow : Option Exception → System D C → System D C
  rethrow none t = record t { client = stopped (ok tt) }
  rethrow (some e) t = record t {
    controller = record (t.controller) { worker_exception = none };
    client = stopped (err e);
  }

  -- The next step of the client inside `start` or `stop`, if it need not wait.
  unfoldable pub goes_on : Client → System D C → Option (System D C)
  unfolding join after_zero rethrow
  goes_on start_join t = join start_spawn t
  goes_on start_spawn t = some (record t {
    controller = record (t.controller) {
      worker_exception = none;
      running = true;
      worker = at_test;
    };
    client = started (ok tt);
  })
  goes_on (stop_join was_running) t = join (stop_zero was_running) t
  goes_on (stop_zero true) t = some (after_zero t (Arm.send_zero_mit_all k t.controller.arm))
  goes_on (stop_zero false) t = some (record t { client = stop_rethrow })
  goes_on stop_rethrow t = some (rethrow t.controller.worker_exception t)
  goes_on fresh t = none
  goes_on (started _) t = none
  goes_on (stopped _) t = none

  unfoldable pub client_step : System D C → Option (System D C)
  unfolding goes_on
  client_step t = goes_on t.client t

  pub data Step (t u : System D C) : Type 0 where
    works :
        is_alive t.controller.worker ≡ true
        → u ≡ with_controller t (worker_step t.controller)
        → Step t u
    starts : (hz : D) → is_idle t.client ≡ true → u ≡ begin_start hz t → Step t u
    stops : is_idle t.client ≡ true → u ≡ begin_stop t → Step t u
    continues : client_step t ≡ some u → Step t u
    sets :
        (can_id : ℕ) (command : MitCommand D)
        → u ≡ with_controller t (set_command can_id command t.controller).1
        → Step t u
    sets_all :
        (commands : List (MitCommand D))
        → u ≡ with_controller t (set_all_commands commands t.controller).1
        → Step t u

  pub data Reach (t : System D C) : System D C → Type 0 where
    here : Reach t t
    next : {u v : System D C} → Reach t u → Step u v → Reach t v

  -- A new controller.
  abbrev pub init : Arm C → System D C
  init arm = record { controller = make arm; client = fresh }
