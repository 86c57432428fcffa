-- ===== src/Controller/Stopping.antt =====
-- The joins of `stop` and `start` in dm_openarm/src/mit_loop_controller.cpp: how long they wait for
-- `worker_loop`, and what the two calls end with.
use dmopenarm.Base.{
  ℕ, suc, ◌+◌, ◌≤◌, ◌≡◌, ◌∙◌, refl, true, false, List, arith, Result, ok, err, if◌then◌else◌,
}
use dmopenarm.Double.{Double}
use dmopenarm.Types.{MitCommand}
use dmopenarm.Sdk.{Sdk}
use dmopenarm.Arm
use dmopenarm.Arm.{Arm}
use dmopenarm.Controller.{
  Worker, absent, at_test, at_copy, at_send, at_sleep, at_catch, at_clear, finished, Controller,
  set_command, write_command, motor_index, set_all_commands,
}
use dmopenarm.Controller.Threads.{is_alive, after_send, work, worker_step}

-- The steps the worker can make at most once `running_` is clear.
abbrev pub steps_left : {D : Type 0} → Worker D → ℕ
steps_left absent = 0
steps_left finished = 0
steps_left at_test = 1
steps_left at_copy = 4
steps_left (at_send _) = 3
steps_left at_sleep = 2
steps_left (at_catch _) = 2
steps_left at_clear = 1

pub steps_left-le : {D : Type 0} (w : Worker D) → steps_left w ≤ 4
steps_left-le absent = omega arith
steps_left-le finished = omega arith
steps_left-le at_test = omega arith
steps_left-le at_copy = omega arith
steps_left-le (at_send _) = omega arith
steps_left-le at_sleep = omega arith
steps_left-le (at_catch _) = omega arith
steps_left-le at_clear = omega arith

pub steps_left-alive : {D : Type 0} (w : Worker D) → (if is_alive w then 1 else 0) ≤ steps_left w
steps_left-alive absent = omega arith
steps_left-alive finished = omega arith
steps_left-alive at_test = omega arith
steps_left-alive at_copy = omega arith
steps_left-alive (at_send _) = omega arith
steps_left-alive at_sleep = omega arith
steps_left-alive (at_catch _) = omega arith
steps_left-alive at_clear = omega arith

module _ {D F C H : Type 0} ⦃d : Double D⦄ (k : Sdk D F C H) where
  -- What a thread can do while another waits in a join: the worker goes on, commands are set.
  pub data Waits (s : Controller D C) : Controller D C → Type 0 where
    waits : Waits s s
    then_works :
        {u : Controller D C} → Waits s u → is_alive u.worker ≡ true → Waits s (worker_step k u)
    then_sets :
        {u : Controller D C} (can_id : ℕ) (command : MitCommand D)
        → Waits s u
        → Waits s (set_command can_id command u).1
    then_sets_all :
        {u : Controller D C} (commands : List (MitCommand D))
        → Waits s u
        → Waits s (set_all_commands commands u).1

  -- The worker's steps among them.
  abbrev pub worker_steps : {s u : Controller D C} → Waits s u → ℕ
  worker_steps waits = 0
  worker_steps (then_works w a) = suc (worker_steps w)
  worker_steps (then_sets i c w) = worker_steps w
  worker_steps (then_sets_all cs w) = worker_steps w

  after_send-steps_left :
      (s : Controller D C) (r : Result (Unit {0}) × Arm C)
      → (steps_left (after_send k s r).worker ≡ 2) × ((after_send k s r).running ≡ s.running)
  unfolding after_send
  after_send-steps_left s (ok tt, arm) = (refl, refl)
  after_send-steps_left s (err e, arm) = (refl, refl)

  -- A step of a thread that is told to stop.
  work-steps_left :
      (w : Worker D) (s : Controller D C)
      → s.running ≡ false
      → is_alive w ≡ true
      → (suc (steps_left (work k w s).worker) ≤ steps_left w) × ((work k w s).running ≡ false)
  unfolding work
  work-steps_left absent s off a = absurd (cc)
  work-steps_left finished s off a = absurd (cc)
  work-steps_left at_test s off a = (rw off (omega arith), off)
  work-steps_left at_copy s off a = (omega arith, off)
  work-steps_left (at_send cs) s off a =
      let sent = after_send-steps_left s (Arm.send_mit_all k cs s.arm) in
      (omega (arith, sent.0), sent.1 ∙ off)
  work-steps_left at_sleep s off a = (omega arith, off)
  work-steps_left (at_catch e) s off a = (omega arith, off)
  work-steps_left at_clear s off a = (omega arith, refl)

  pub worker_step-steps_left :
      (s : Controller D C)
      → s.running ≡ false
      → is_alive s.worker ≡ true
      → (suc (steps_left (worker_step k s).worker) ≤ steps_left s.worker)
        × ((worker_step k s).running ≡ false)
  unfolding worker_step
  worker_step-steps_left s = work-steps_left s.worker s

  set_command-keeps :
      (can_id : ℕ) (command : MitCommand D) (s : Controller D C)
      → ((set_command can_id command s).1.worker ≡ s.worker)
        × ((set_command can_id command s).1.running ≡ s.running)
  unfolding set_command write_command
  set_command-keeps can_id command s = written (motor_index s.can_ids can_id)
    where
      written :
          (r : Result ℕ)
          → ((write_command command s r).1.worker ≡ s.worker)
            × ((write_command command s r).1.running ≡ s.running)
      written (ok i) = (refl, refl)
      written (err e) = (refl, refl)

  set_all_commands-keeps :
      (cs : List (MitCommand D)) (s : Controller D C)
      → ((set_all_commands cs s).1.worker ≡ s.worker)
        × ((set_all_commands cs s).1.running ≡ s.running)
  unfolding set_all_commands
  set_all_commands-keeps cs s = ground arith

  Waits-steps_left :
      {s u : Controller D C} (w : Waits s u)
      → s.running ≡ false
      → (worker_steps w + steps_left u.worker ≤ steps_left s.worker) × (u.running ≡ false)
  Waits-steps_left waits off = (omega arith, off)
  Waits-steps_left (then_works {u = u} w a) off =
      let before = Waits-steps_left w off in
      let step = worker_step-steps_left u before.1 a in (omega (arith, before.0, step.0), step.1)
  Waits-steps_left (then_sets {u = u} i c w) off =
      let before = Waits-steps_left w off in
      let kept = set_command-keeps i c u in (rw (kept.0) (before.0), kept.1 ∙ before.1)
  Waits-steps_left (then_sets_all {u = u} cs w) off =
      let before = Waits-steps_left w off in
      let kept = set_all_commands-keeps cs u in (rw (kept.0) (before.0), kept.1 ∙ before.1)

  -- While a call of `stop` or `start` waits in its join, `running_` being clear, the worker makes at most
  -- four more steps, whatever other threads set meanwhile, and is not alive any more after four.
  pub Waits-ends :
      {s u : Controller D C} (w : Waits s u)
      → s.running ≡ false
      → worker_steps w + (if is_alive u.worker then 1 else 0) ≤ 4
  Waits-ends {s = s} {u = u} w off =
      let bound = Waits-steps_left w off in
      let most = steps_left-le s.worker in
      let alive = steps_left-alive u.worker in omega (arith, bound.0, most, alive)
