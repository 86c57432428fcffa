-- ===== src/MotorGroup.antt =====
-- dm_openarm/src/motor.cpp and dm_openarm/src/motor_group.cpp with their headers: motors with the state last reported.
pub mod Methods
mod Tests
use dmopenarm.Base.{
  ℕ, suc, ◌≡◌, ◌≢◌, refl, ap, inl, inr, not, List, [], ◌∷◌, map, arith, length, ◌==◌, ==_refl,
  Exception, invalid_argument, Result, ok, err, if◌then◌else◌,
}
use dmopenarm.Base.Action.{Action}
use dmopenarm.Text.{codes}
use dmopenarm.Double.{Double}
use dmopenarm.Types.{MotorConfig, MotorState, default_state}

pub record Motor (D : Type 0) : Type 0 where
  pub config : MotorConfig
  pub state : MotorState D

-- `MotorGroup` is its vector of motors.
abbrev pub MotorGroup : Type 0 → Type 0
MotorGroup D = List (Motor D)

abbrev pub state_mismatch : Exception
state_mismatch = invalid_argument (codes "state count does not match motor count")

module _ {D : Type 0} ⦃d : Double D⦄ where
  -- The constructor of `Motor`.
  unfoldable pub make_motor : MotorConfig → Motor D
  make_motor config = record {
    config = config;
    state = record (default_state) { can_id = config.can_id; mst_id = config.mst_id };
  }

  -- The constructor of `MotorGroup`.
  unfoldable pub make : List MotorConfig → MotorGroup D
  unfolding make_motor
  make configs = map make_motor configs

module _ {D : Type 0} where
  unfoldable pub set_state : Motor D → MotorState D → Motor D
  set_state m state = record m { state = state }

  unfoldable pub size : MotorGroup D → ℕ
  size motors = length motors

  unfoldable pub states : MotorGroup D → List (MotorState D)
  states motors = map (λ m. m.state) motors

  -- The loop of `update_states`: motor and state at the same index.
  unfoldable pub set_states : MotorGroup D → List (MotorState D) → MotorGroup D
  unfolding set_state
  set_states (m ∷ ms) (s ∷ ss) = set_state m s ∷ set_states ms ss
  set_states ms _ = ms

  unfoldable pub update_states : List (MotorState D) → Action (MotorGroup D) (Unit {0})
  unfolding set_states
  update_states ss motors =
      if not (length ss == length motors)
      then (err state_mismatch, motors)
      else (ok tt, set_states motors ss)

  states-set_states :
      (ms : MotorGroup D) (ss : List (MotorState D))
      → length ss ≡ length ms
      → states (set_states ms ss) ≡ ss
  unfolding states set_states
  states-set_states [] [] e = refl
  states-set_states [] (s ∷ ss) e = absurd (omega arith)
  states-set_states (m ∷ ms) [] e = absurd (omega arith)
  states-set_states (m ∷ ms) (s ∷ ss) e = ap (λ l. s ∷ l) (states-set_states ms ss (omega arith))

  configs-set_states :
      (ms : MotorGroup D) (ss : List (MotorState D))
      → map (λ m. m.config) (set_states ms ss) ≡ map (λ m. m.config) ms
  unfolding set_states
  configs-set_states [] ss = refl
  configs-set_states (m ∷ ms) [] = refl
  configs-set_states (m ∷ ms) (s ∷ ss) = ap (λ l. m.config ∷ l) (configs-set_states ms ss)

  -- With one state for each motor `update_states` returns, the states read back are those given, in
  -- order, and no motor's configuration changes.
  pub states-update_states :
      (ms : MotorGroup D) (ss : List (MotorState D))
      → length ss ≡ length ms
      → let r = update_states ss ms in
        (r.0 ≡ ok tt) × (states r.1 ≡ ss) × (map (λ m. m.config) r.1 ≡ map (λ m. m.config) ms)
  unfolding update_states
  states-update_states ms ss e = ground (arith, states-set_states ms ss e, configs-set_states ms ss)
