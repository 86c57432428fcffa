-- ===== src/Program/RuntimeOnly.antt =====
-- The option --runtime-only of dm_openarm/examples/set_zero_position.cpp, and the two calls of the library
-- that write a motor's flash and enable the motors again.
use dmopenarm.Base.{
  ℕ, ◌≡◌, refl, ap, false, none, some, List, [], ◌∷◌, replicate, length, Result, ok, err, not, ◌==◌,
}
use dmopenarm.Base.Action.{Action, continue, throw_if, ◌>>=◌, ◌>>◌}
use dmopenarm.Base.Outcome
use mathlib.Core.Path.{fun_ext}
use dmopenarm.Text.{Text, codes, text_eq_refl}
use dmopenarm.Double.{Double}
use dmopenarm.Types.{MotorConfig, ArmConfig, MitCommand, MotorState, default_command}
use dmopenarm.Yaml.{Yaml}
use dmopenarm.Sdk.{Sdk}
use dmopenarm.Backend.{
  Backend, install, on_control, send_one, send_each, state_one, states_each, zero_at, zero_motor,
  persist_zero, set_zero,
}
use dmopenarm.Backend
use dmopenarm.Arm
use dmopenarm.Program.{Program, run_main, connect, on_arm, sleep, write, disable}
use dmopenarm.Program.SetZero.{
  target_ids, after_lines, zero_target, zero_targets, zero_body, zero_main,
}

module _ {D F C H : Type 0} ⦃d : Double D⦄ (k : Sdk D F C H) (save : H → Action C (Unit {0}))
    (enable : Action C (Unit {0})) where
  -- The same library, but for what these two calls do.
  abbrev pub other : Sdk D F C H
  other = record k { save_motor_param = save; enable_all = enable }

  send_each-other :
      (ms : List MotorConfig) (xs : List (MitCommand D)) (c : C)
      → send_each other ms xs c ≡ send_each k ms xs c
  unfolding send_each send_one
  send_each-other [] xs c = refl
  send_each-other (m ∷ ms) [] c = refl
  send_each-other (m ∷ ms) (x ∷ xs) c =
      ap (λ f. continue (λ _. f) (send_one k m x c)) (fun_ext (send_each-other ms xs))

  states_each-other : (c : C) (ms : List MotorConfig) → states_each other c ms ≡ states_each k c ms
  unfolding states_each state_one
  states_each-other c [] = refl
  states_each-other c (m ∷ ms) =
      ap (λ r. Outcome.◌>>=◌ (state_one k c m) λ s. Outcome.◌>>=◌ r λ ss. ok (s ∷ ss))
        (states_each-other c ms)

  send_zero-other : Arm.send_zero_mit_all other ≡ Arm.send_zero_mit_all k
  unfolding Arm.send_zero_mit_all Backend.send_zero_mit_all Backend.send_mit_all on_control
  send_zero-other = fun_ext λ a.
      let ms = a.backend.config.motors in
      let sending : Action C (Unit {0}) → Result (Unit {0}) × Arm.Arm C = λ each.
        Arm.on_backend
          (on_control (
            throw_if (not (length (replicate (length ms) (default_command {D = D})) == length ms))
              Backend.count_mismatch
            >> each))
          a in
      ap sending (fun_ext (send_each-other ms (replicate (length ms) default_command)))

  states-other : Arm.states other ≡ Arm.states k
  unfolding Arm.states Backend.states
  states-other = fun_ext λ a.
      ap
        (λ (f : C → Result (List (MotorState D))). elim a.backend.control [
          | none ↦ err Backend.not_connected
          | some c ↦ f c
        ])
        (fun_ext λ c. states_each-other c a.backend.config.motors)

  zero_targets-other :
      (before : List (MotorState D)) (ids : List ℕ) (p : Program D C)
      → zero_targets other false before ids p ≡ zero_targets k false before ids p
  unfolding zero_targets zero_target Arm.set_zero set_zero zero_at zero_motor persist_zero
  zero_targets-other before [] p = refl
  zero_targets-other before (can_id ∷ ids) p =
      ap (λ f. continue (λ _. f) (zero_target k false before can_id p))
        (fun_ext (zero_targets-other before ids))

  -- The program's part after `main` has read its arguments, in terms of the calls that reach the library.
  abbrev skeleton :
      Text
      → ArmConfig
      → Action (Arm.Arm C) (Unit {0})
      → (Arm.Arm C → Result (List (MotorState D)))
      → (List (MotorState D) → List ℕ → Action (Program D C) (Unit {0}))
      → Action (Program D C) (Unit {0})
  skeleton target config zero read targets = do
    connect k
    on_arm zero
    sleep k config.loop_period
    before ← λ p. (read p.arm, p)
    ids ← λ p. (target_ids target config, p)
    targets before ids
    on_arm zero
    sleep k config.loop_period
    states ← λ p. (read p.arm, p)
    write (after_lines states ids)
    disable

  zero_body-other :
      (target : Text) (config : ArmConfig)
      → zero_body other target false config ≡ zero_body k target false config
  unfolding zero_body Arm.connect Backend.connect install
  zero_body-other target config = λ i. skeleton target config (send_zero-other i) (states-other i) (
      fun_ext
        (λ (before : List (MotorState D)).
          fun_ext (λ (ids : List ℕ). fun_ext (zero_targets-other before ids)))
        i)

  -- With the option --runtime-only the program exits in the same way, with the same output, whatever the
  -- calls do that write a motor's flash and enable the motors again: it does not depend on them.
  pub zero_main-other :
      {N : Type 0} (y : Yaml N) (program path target : Text)
      → let argv = program ∷ path ∷ target ∷ codes "--runtime-only" ∷ [] in
        zero_main other y argv ≡ zero_main k y argv
  unfolding zero_main
  zero_main-other y program path target =
      rw (text_eq_refl (codes "--runtime-only"))
        (ap (run_main y path) (fun_ext (zero_body-other target)))
