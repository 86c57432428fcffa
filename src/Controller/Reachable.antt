-- ===== src/Controller/Reachable.antt =====
-- The client's steps of dm_openarm/src/mit_loop_controller.cpp against the invariant, and every run of the two threads.
use dmopenarm.Base.{
  ℕ, ◌≡◌, refl, ◌∙◌, subst, inl, inr, Bool, true, false, Option, none, some, List, arith, length,
  length-set, length-map, length-replicate, Result, ok, err, if◌then◌else◌, sym, Bool-cases,
  Exception, ◌==◌,
}
use mathlib.Core.Option.{some-injective}
use dmopenarm.Double.{Double, zero_of}
use dmopenarm.Types.{MitCommand}
use dmopenarm.Sdk.{Sdk}
use dmopenarm.Arm
use dmopenarm.Arm.{Arm}
use dmopenarm.Controller.{absent, make, set_command, write_command, motor_index, set_all_commands}
use dmopenarm.Controller.Threads.{
  Client, fresh, started, stopped, start_join, start_spawn, stop_join, stop_zero, stop_rethrow,
  System, is_idle, is_alive, bad_frequency, begin_start, begin_stop, join, after_zero, rethrow,
  goes_on, client_step, with_controller, Step, works, starts, stops, continues, sets, sets_all,
  Reach, here, next, init,
}
use dmopenarm.Controller.Invariant.{
  is_absent, ClientFits, IsSound, quiet-IsSound, worker_step-IsSound,
}

module _ {D F C H : Type 0} ⦃d : Double D⦄ (k : Sdk D F C H) where
  begin_start-IsSound :
      (hz : D) (t : System D C) → is_idle t.client ≡ true → IsSound t → IsSound (begin_start k hz t)
  unfolding begin_start
  begin_start-IsSound hz t i v = decided (d.le hz (zero_of d)) t.controller.running (λ off. off)
    where
      idle_at : (c : Client) → ClientFits t.controller c → IsSound (record t { client = c })
      idle_at c f = record {
        counted = v.counted;
        copied = v.copied;
        driven = v.driven;
        over = v.over;
        client_fits = f;
      }

      decided :
          (bad on : Bool)
          → (on ≡ false → t.controller.running ≡ false)
          → IsSound (
              if bad
              then record t { client = started (err bad_frequency) }
              else if on
              then record t { client = started (ok tt) }
              else record t { client = start_join })
      decided true on off = idle_at (started (err bad_frequency)) tt
      decided false true off = idle_at (started (ok tt)) tt
      decided false false off = idle_at start_join (off refl)

  begin_stop-IsSound : (t : System D C) → IsSound t → IsSound (begin_stop k t)
  unfolding begin_stop
  begin_stop-IsSound t v = record {
    counted = v.counted;
    copied = v.copied;
    driven = refl;
    over = v.over;
    client_fits = refl;
  }

  join-IsSound :
      (then_at : Client) (t u : System D C)
      → t.controller.running ≡ false
      → join k then_at t ≡ some u
      → IsSound t
      → IsSound u
  unfolding join
  join-IsSound then_at t u off h v = elim (Bool-cases (is_alive t.controller.worker)) [
    | inl on ↦ absurd (cc (rw on at h))
    | inr over ↦
        subst IsSound (some-injective _ _ (rw over at h))
          (quiet-IsSound (record (t.controller) { worker = absent }) then_at v.counted off refl)
  ]

  after_zero-IsSound :
      (t : System D C) (r : Result (Unit {0}) × Arm C)
      → t.controller.running ≡ false
      → is_absent t.controller.worker ≡ true
      → IsSound t
      → IsSound (after_zero k t r)
  unfolding after_zero
  after_zero-IsSound t (ok tt, arm) off gone v =
      quiet-IsSound (record (t.controller) { arm = arm }) stop_rethrow v.counted off gone
  after_zero-IsSound t (err e, arm) off gone v =
      quiet-IsSound (record (t.controller) { arm = arm }) (stopped (err e)) v.counted off gone

  rethrow-IsSound :
      (x : Option Exception) (t : System D C)
      → t.controller.running ≡ false
      → is_absent t.controller.worker ≡ true
      → IsSound t
      → IsSound (rethrow k x t)
  unfolding rethrow
  rethrow-IsSound none t off gone v =
      quiet-IsSound t.controller (stopped (ok tt)) v.counted off gone
  rethrow-IsSound (some e) t off gone v =
      quiet-IsSound (record (t.controller) { worker_exception = none }) (stopped (err e)) v.counted
        off gone

  goes_on-IsSound :
      (c : Client) (t u : System D C)
      → ClientFits t.controller c
      → goes_on k c t ≡ some u
      → IsSound t
      → IsSound u
  unfolding goes_on
  goes_on-IsSound fresh t u f h v = absurd (cc)
  goes_on-IsSound (started r) t u f h v = absurd (cc)
  goes_on-IsSound (stopped r) t u f h v = absurd (cc)
  goes_on-IsSound start_join t u f h v = join-IsSound start_spawn t u f h v
  goes_on-IsSound start_spawn t u f h v =
      subst IsSound (some-injective _ _ h)
        (record { counted = v.counted; copied = tt; driven = refl; over = refl; client_fits = tt })
  goes_on-IsSound (stop_join b) t u f h v = join-IsSound (stop_zero b) t u f h v
  goes_on-IsSound (stop_zero true) t u (off, gone) h v =
      subst IsSound (some-injective _ _ h)
        (after_zero-IsSound t (Arm.send_zero_mit_all k t.controller.arm) off gone v)
  goes_on-IsSound (stop_zero false) t u (off, gone) h v =
      subst IsSound (some-injective _ _ h)
        (quiet-IsSound t.controller stop_rethrow v.counted off gone)
  goes_on-IsSound stop_rethrow t u (off, gone) h v =
      subst IsSound (some-injective _ _ h)
        (rethrow-IsSound t.controller.worker_exception t off gone v)

  recommanded-IsSound :
      (t : System D C) (cs : List (MitCommand D))
      → length cs ≡ length t.controller.commands
      → IsSound t
      → IsSound (with_controller t (record (t.controller) { commands = cs }))
  recommanded-IsSound t cs e v = record {
    counted = e ∙ v.counted;
    copied = v.copied;
    driven = v.driven;
    over = v.over;
    client_fits = ClientFits-commands t.client v.client_fits;
  }
    where
      ClientFits-commands :
          (c : Client)
          → ClientFits t.controller c
          → ClientFits (record (t.controller) { commands = cs }) c
      ClientFits-commands fresh f = f
      ClientFits-commands (started _) f = f
      ClientFits-commands (stopped _) f = f
      ClientFits-commands start_join f = f
      ClientFits-commands start_spawn f = f
      ClientFits-commands (stop_join _) f = f
      ClientFits-commands (stop_zero _) f = f
      ClientFits-commands stop_rethrow f = f

  sets-IsSound :
      (can_id : ℕ) (command : MitCommand D) (t : System D C)
      → IsSound t
      → IsSound (with_controller t (set_command can_id command t.controller).1)
  unfolding set_command write_command
  sets-IsSound can_id command t v = written (motor_index t.controller.can_ids can_id)
    where
      written :
          (r : Result ℕ) → IsSound (with_controller t (write_command command t.controller r).1)
      written (ok index) =
          recommanded-IsSound t _ (length-set t.controller.commands index command) v
      written (err e) = v

  sets_all-IsSound :
      (commands : List (MitCommand D)) (t : System D C)
      → IsSound t
      → IsSound (with_controller t (set_all_commands commands t.controller).1)
  unfolding set_all_commands
  sets_all-IsSound commands t v =
      elim (Bool-cases (length commands == length t.controller.commands)) [
        | inl same ↦ rw same (recommanded-IsSound t commands (ground arith) v)
        | inr other ↦ rw other v
      ]

  Step-IsSound : {t u : System D C} → Step k t u → IsSound t → IsSound u
  unfolding client_step
  Step-IsSound (works a e) v = subst IsSound (sym e) (worker_step-IsSound k _ a v)
  Step-IsSound (starts hz i e) v = subst IsSound (sym e) (begin_start-IsSound hz _ i v)
  Step-IsSound (stops i e) v = subst IsSound (sym e) (begin_stop-IsSound _ v)
  Step-IsSound {t = t} {u = u} (continues h) v = goes_on-IsSound t.client t u v.client_fits h v
  Step-IsSound (sets can_id command e) v = subst IsSound (sym e) (sets-IsSound can_id command _ v)
  Step-IsSound (sets_all commands e) v = subst IsSound (sym e) (sets_all-IsSound commands _ v)

  Reach-IsSound : {t u : System D C} → Reach k t u → IsSound t → IsSound u
  Reach-IsSound here v = v
  Reach-IsSound (next r s) v = Step-IsSound s (Reach-IsSound r v)

  init-IsSound : (arm : Arm C) → IsSound (init k arm)
  unfolding make
  init-IsSound arm =
      quiet-IsSound (make arm) fresh (length-replicate _ _ ∙ sym (length-map _ _)) refl refl

  -- Whatever a new controller's client, its worker thread and callers of `set_command` and
  -- `set_all_commands` do, in any order: there is one command per motor, in the table and in the copy the
  -- worker sends; while `running_` is set the worker thread runs; an exception is only stored once the
  -- worker sends no more; and past the join of `start` or `stop` there is no worker and the flag is down.
  pub run-IsSound : (arm : Arm C) (u : System D C) → Reach k (init k arm) u → IsSound u
  run-IsSound arm u r = Reach-IsSound r (init-IsSound arm)
