-- ===== src/Python/Package.antt =====
-- dm_openarm/python/dm_openarm/arm.py: the class Arm, whose arm and whose controller are one `System`. Its calls of
-- `start` and `stop` are followed to their ends; what the worker thread does between two calls is an
-- argument where a method makes several.
use dmopenarm.Base.{ℕ, Bool, true, false, Option, List, [], ◌∷◌, map, Result, ok, if◌then◌else◌}
use dmopenarm.Base.Outcome
use dmopenarm.Base.Action.{Action, ◌>>=◌, ◌>>◌}
use dmopenarm.Text.{Text}
use dmopenarm.Double.{Double, zero_of}
use dmopenarm.Types.{MitCommand, MotorState, ArmConfig}
use dmopenarm.Yaml.{Yaml}
use dmopenarm.Sdk.{Sdk}
use dmopenarm.Arm
use dmopenarm.Arm.{Arm}
use dmopenarm.Controller.{Controller, set_command, set_all_commands}
use dmopenarm.Controller.Methods
use dmopenarm.Controller.Threads.{
  Client, fresh, started, stopped, start_join, start_spawn, stop_join, stop_zero, stop_rethrow,
  System, with_controller, begin_start, begin_stop,
}
use dmopenarm.Controller.Threads
use dmopenarm.Controller.Outcome.{finish}
use dmopenarm.Controller.Sending.{steps}
use dmopenarm.Python.{given, mit_command_init, load_arm_config}

-- What a call that has ended returned or threw; the client is in no call before its first.
abbrev pub returned : Client → Result (Unit {0})
returned (started r) = r
returned (stopped r) = r
returned _ = ok tt

module _ {D C : Type 0} where
  abbrev pub called : System D C → Result (Unit {0}) × System D C
  called t = (returned t.client, t)

  abbrev pub on_controller : {A : Type 0} → Action (Controller D C) A → Action (System D C) A
  on_controller act t = let (r, s) = act t.controller in (r, with_controller t s)

  abbrev pub on_arm : {A : Type 0} → Action (Arm C) A → Action (System D C) A
  on_arm act = on_controller λ s. let (r, a) = act s.arm in (r, record s { arm = a })

  abbrev pub mit_loop_running : System D C → Bool
  mit_loop_running t = Methods.running t.controller

  abbrev pub commands : System D C → List (MitCommand D)
  commands t = Methods.commands t.controller

module _ {D F C H : Type 0} ⦃d : Double D⦄ (k : Sdk D F C H) where
  -- `__init__`.
  abbrev pub init : ArmConfig → System D C
  init config = Threads.init k (Arm.make config)

  abbrev pub from_yaml : {N : Type 0} → Yaml N → Text → Result (System D C)
  from_yaml y path = Outcome.◌>>=◌ (load_arm_config y path) λ config. ok (init config)

  abbrev pub enable : Action (System D C) (Unit {0})
  enable = on_arm (Arm.connect k)

  abbrev pub states : Action (System D C) (List (MotorState D))
  states t = (Arm.states k t.controller.arm, t)

  abbrev pub set_zero : ℕ → Option Bool → Action (System D C) (Unit {0})
  set_zero can_id persist = on_arm (Arm.set_zero k can_id (given true persist))

  abbrev pub set_zero_all : Option Bool → Action (System D C) (Unit {0})
  set_zero_all persist = on_arm (Arm.set_zero_all k (given true persist))

  -- The call of `start`: no worker runs when it joins one.
  abbrev pub start : D → Action (System D C) (Unit {0})
  start hz t = called (finish k 2 (begin_start k hz t))

  -- The call of `stop`: the worker makes its last steps, of which there are at most four, while it waits.
  abbrev pub stop : Action (System D C) (Unit {0})
  stop t =
      let u = begin_stop k t in called (finish k 3 (with_controller u (steps k 4 u.controller)))

  -- What the worker does between two calls.
  abbrev pub works : ℕ → Action (System D C) (Unit {0})
  works n t = (ok tt, with_controller t (steps k n t.controller))

  -- The worker makes some steps between the call of `running` and that of `stop`.
  unfoldable pub stop_mit_loop : ℕ → Action (System D C) (Unit {0})
  stop_mit_loop meanwhile t =
      if t.controller.running then (works meanwhile >> stop) t else (ok tt, t)

  unfoldable pub disable : ℕ → Action (System D C) (Unit {0})
  unfolding stop_mit_loop
  disable meanwhile = do stop_mit_loop meanwhile; on_arm λ a. (ok tt, Arm.disable a)

  abbrev zero_command : MitCommand D
  zero_command = record {
    kp = d.literal 12 1;
    kd = d.literal 6 10;
    q = zero_of d;
    dq = zero_of d;
    tau = zero_of d;
  }

  -- Every position is near zero.
  unfoldable pub all_near : List (MotorState D) → Bool
  all_near [] = true
  all_near (s ∷ ss) = if d.lt (d.abs s.position) (d.literal 5 100) then all_near ss else false

  -- The loop that waits: the steps that the worker makes before each round. After the last the time is over.
  unfoldable pub wait_near : ℕ → List ℕ → Action (System D C) (Unit {0})
  unfolding all_near
  wait_near meanwhile [] = do works meanwhile; ss ← states; λ t. (ok tt, t)
  wait_near meanwhile (next ∷ rounds) = do
    works meanwhile
    ss ← states
    λ t. let later = wait_near next rounds t in if all_near ss then (ok tt, t) else later

  -- The worker's steps before the states are read, before the commands are set, and before each round.
  unfoldable pub start_mit_loop : Option D → ℕ → ℕ → ℕ → List ℕ → Action (System D C) (Unit {0})
  unfolding wait_near
  start_mit_loop hz first second third rounds = do
    start (given (d.literal 1000 1) hz)
    works first
    ss ← states
    works second
    on_controller (set_all_commands (map (λ s. zero_command) ss))
    wait_near third rounds

  -- `mit` with a CAN ID, and with a dictionary, in its order.
  abbrev pub mit :
      ℕ → Option D → Option D → Option D → Option D → Option D → Action (System D C) (Unit {0})
  mit can_id kp kd q dq tau = on_controller (set_command can_id (mit_command_init kp kd q dq tau))

  unfoldable pub mit_each : List (ℕ × MitCommand D) → Action (System D C) (Unit {0})
  mit_each [] t = (ok tt, t)
  mit_each ((can_id, command) ∷ rest) t =
      (on_controller (set_command can_id command) >> mit_each rest) t

  -- `__exit__`, and `__del__`, which drops what `disable` throws.
  abbrev pub exit : ℕ → Action (System D C) (Unit {0})
  exit = disable

  abbrev pub delete : ℕ → System D C → System D C
  delete meanwhile t = (disable meanwhile t).1
