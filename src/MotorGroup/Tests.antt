-- ===== src/MotorGroup/Tests.antt =====
-- The properties of dm_openarm/src/motor_group.cpp at concrete inputs.
use dmopenarm.Base.{ℕ, ◌≡◌, refl, [], ◌∷◌, map, ok}
use dmopenarm.Base.Int.{pos}
use dmopenarm.Text.{codes}
use dmopenarm.Double.Fixed.{Fixed, milli, fixed}
use dmopenarm.Types.{MotorConfig, MotorState, mit, default_state}
use dmopenarm.Types
use dmopenarm.MotorGroup.{MotorGroup, make, states, update_states, states-update_states}

abbrev motor_at : ℕ → MotorConfig
motor_at can_id = record {
  name = codes "motor";
  model = Types.MotorModel.dm4310;
  mode = mit;
  can_id = can_id;
  mst_id = can_id;
}

abbrev group : MotorGroup Fixed
group = make (motor_at 1 ∷ motor_at 2 ∷ [])

abbrev moved : ℕ → MotorState Fixed
moved n = record (default_state) { can_id = n; position = milli (pos n) }

states-update_states_example :
    let r = update_states (moved 1 ∷ moved 2 ∷ []) group in
    (r.0 ≡ ok tt)
    × (states r.1 ≡ moved 1 ∷ moved 2 ∷ [])
    × (map (λ m. m.config) r.1 ≡ map (λ m. m.config) group)
unfolding make
states-update_states_example = states-update_states group (moved 1 ∷ moved 2 ∷ []) refl
