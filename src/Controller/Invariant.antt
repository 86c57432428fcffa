-- ===== src/Controller/Invariant.antt =====
-- What holds of the controller of dm_openarm/src/mit_loop_controller.cpp at every moment of every run.
use dmopenarm.Base.{
  ℕ, ◌≡◌, refl, Bool, true, false, not, ◌||◌, List, arith, length, Result, ok, err, if◌then◌else◌,
}
use dmopenarm.Double.{Double}
use dmopenarm.Types.{MitCommand}
use dmopenarm.Sdk.{Sdk}
use dmopenarm.Arm
use dmopenarm.Arm.{Arm}
use dmopenarm.Backend.{is_some}
use dmopenarm.Controller.{
  Worker, absent, at_test, at_copy, at_send, at_sleep, at_catch, at_clear, finished, Controller,
}
use dmopenarm.Controller.Threads.{
  Client, fresh, started, stopped, start_join, start_spawn, stop_join, stop_zero, stop_rethrow,
  System, is_alive, after_send, work, worker_step, with_controller,
}

abbrev pub is_absent : {D : Type 0} → Worker D → Bool
is_absent absent = true
is_absent _ = false

-- The exception has been stored: the thread will not send again.
abbrev pub is_over : {D : Type 0} → Worker D → Bool
is_over absent = true
is_over finished = true
is_over at_clear = true
is_over _ = false

abbrev pub CopyFits : {D : Type 0} → ℕ → Worker D → Type 0
CopyFits n (at_send snapshot) = length snapshot ≡ n
CopyFits n _ = Unit

-- What the client may rely on, where it is.
abbrev pub ClientFits : {D C : Type 0} → Controller D C → Client → Type 0
ClientFits s (started _) = Unit
ClientFits s start_join = s.running ≡ false
ClientFits s (stop_join _) = s.running ≡ false
ClientFits s _ = (s.running ≡ false) × (is_absent s.worker ≡ true)

pub record IsSound {D C : Type 0} (t : System D C) : Type 0 where
  pub counted : length t.controller.commands ≡ length t.controller.can_ids
  pub copied : CopyFits (length t.controller.can_ids) t.controller.worker
  pub driven : (not t.controller.running || is_alive t.controller.worker) ≡ true
  pub over : (not (is_some t.controller.worker_exception) || is_over t.controller.worker) ≡ true
  pub client_fits : ClientFits t.controller t.client

-- While the worker runs, the client is at no place that rules it out.
ClientFits-work :
    {D C : Type 0} (s s' : Controller D C) (c : Client)
    → (s.running ≡ false → s'.running ≡ false)
    → is_alive s.worker ≡ true
    → ClientFits s c
    → ClientFits s' c
ClientFits-work s s' (started _) keep a f = tt
ClientFits-work s s' start_join keep a f = keep f
ClientFits-work s s' (stop_join _) keep a f = keep f
ClientFits-work s s' fresh keep a f = absurd (ground arith)
ClientFits-work s s' (stopped _) keep a f = absurd (ground arith)
ClientFits-work s s' start_spawn keep a f = absurd (ground arith)
ClientFits-work s s' (stop_zero _) keep a f = absurd (ground arith)
ClientFits-work s s' stop_rethrow keep a f = absurd (ground arith)

-- A step of the worker, which runs, from its effect on each part of the invariant.
worked-IsSound :
    {D C : Type 0} (t : System D C) (s : Controller D C)
    → length s.commands ≡ length s.can_ids
    → CopyFits (length s.can_ids) s.worker
    → (not s.running || is_alive s.worker) ≡ true
    → (not (is_some s.worker_exception) || is_over s.worker) ≡ true
    → (t.controller.running ≡ false → s.running ≡ false)
    → is_alive t.controller.worker ≡ true
    → IsSound t
    → IsSound (with_controller t s)
worked-IsSound t s n c r o keep a v = record {
  counted = n;
  copied = c;
  driven = r;
  over = o;
  client_fits = ClientFits-work t.controller s t.client keep a v.client_fits;
}

-- With no worker and the flag down, everything holds wherever the client is.
ClientFits-quiet :
    {D C : Type 0} (s : Controller D C) (c : Client)
    → s.running ≡ false
    → is_absent s.worker ≡ true
    → ClientFits s c
ClientFits-quiet s (started _) r a = tt
ClientFits-quiet s start_join r a = r
ClientFits-quiet s (stop_join _) r a = r
ClientFits-quiet s fresh r a = (r, a)
ClientFits-quiet s (stopped _) r a = (r, a)
ClientFits-quiet s start_spawn r a = (r, a)
ClientFits-quiet s (stop_zero _) r a = (r, a)
ClientFits-quiet s stop_rethrow r a = (r, a)

CopyFits-absent : {D : Type 0} (n : ℕ) (w : Worker D) → is_absent w ≡ true → CopyFits n w
CopyFits-absent n (at_send cs) a = absurd (cc)
CopyFits-absent n absent a = tt
CopyFits-absent n at_test a = tt
CopyFits-absent n at_copy a = tt
CopyFits-absent n at_sleep a = tt
CopyFits-absent n (at_catch _) a = tt
CopyFits-absent n at_clear a = tt
CopyFits-absent n finished a = tt

pub quiet-IsSound :
    {D C : Type 0} (s : Controller D C) (c : Client)
    → length s.commands ≡ length s.can_ids
    → s.running ≡ false
    → is_absent s.worker ≡ true
    → IsSound (record { controller = s; client = c })
quiet-IsSound s c n r a = record {
  counted = n;
  copied = CopyFits-absent (length s.can_ids) s.worker a;
  driven = ground arith;
  over = ground arith;
  client_fits = ClientFits-quiet s c r a;
}

module _ {D F C H : Type 0} ⦃d : Double D⦄ (k : Sdk D F C H) where
  after_send-IsSound :
      (t : System D C) (snapshot : List (MitCommand D)) (r : Result (Unit {0}) × Arm C)
      → t.controller.worker ≡ at_send snapshot
      → IsSound t
      → IsSound (with_controller t (after_send k t.controller r))
  unfolding after_send
  after_send-IsSound t snapshot (ok tt, arm) e v =
      worked-IsSound t (after_send k t.controller (ok tt, arm)) v.counted tt (ground arith)
        (ground (arith, v.over)) (λ h. h) (ground arith) v
  after_send-IsSound t snapshot (err x, arm) e v =
      worked-IsSound t (after_send k t.controller (err x, arm)) v.counted tt (ground arith)
        (ground (arith, v.over)) (λ h. h) (ground arith) v

  work-IsSound :
      (w : Worker D) (t : System D C)
      → t.controller.worker ≡ w
      → is_alive w ≡ true
      → IsSound t
      → IsSound (with_controller t (work k w t.controller))
  unfolding work
  work-IsSound absent t e a v = absurd (cc)
  work-IsSound finished t e a v = absurd (cc)
  work-IsSound at_test t e a v =
      worked-IsSound t (work k at_test t.controller) v.counted (copied_test t.controller.running)
        (ground arith) (ground (arith, v.over)) (λ h. h) (ground arith) v
    where
      copied_test :
          (b : Bool)
          → CopyFits {D = D} (length t.controller.can_ids) (if b then at_copy else finished)
      copied_test true = tt
      copied_test false = tt
  work-IsSound at_copy t e a v =
      worked-IsSound t (work k at_copy t.controller) v.counted v.counted (ground arith)
        (ground (arith, v.over)) (λ h. h) (ground arith) v
  work-IsSound (at_send snapshot) t e a v =
      after_send-IsSound t snapshot (Arm.send_mit_all k snapshot t.controller.arm) e v
  work-IsSound at_sleep t e a v =
      worked-IsSound t (work k at_sleep t.controller) v.counted tt (ground arith)
        (ground (arith, v.over)) (λ h. h) (ground arith) v
  work-IsSound (at_catch x) t e a v =
      worked-IsSound t (work k (at_catch x) t.controller) v.counted tt (ground arith) refl (λ h. h)
        (ground arith) v
  work-IsSound at_clear t e a v =
      worked-IsSound t (work k at_clear t.controller) v.counted tt refl (ground arith) (λ h. refl)
        (ground arith) v

  pub worker_step-IsSound :
      (t : System D C)
      → is_alive t.controller.worker ≡ true
      → IsSound t
      → IsSound (with_controller t (worker_step k t.controller))
  unfolding worker_step
  worker_step-IsSound t a v = work-IsSound t.controller.worker t refl a v
