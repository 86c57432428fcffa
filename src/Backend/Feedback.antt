-- ===== src/Backend/Feedback.antt =====
-- What `states` of dm_openarm/src/backend/dm_serial_backend.cpp reports.
use dmopenarm.Base.{◌≡◌, ◌↔◌, refl, ◌∙◌, inl, inr, some, List, [], ◌∷◌, arith, ok, Option-cases}
use dmopenarm.Base.Outcome.{>>=-eq-ok}
use dmopenarm.Double.{Double}
use dmopenarm.Types.{MotorConfig, MotorState}
use dmopenarm.Sdk.{Sdk}
use dmopenarm.Backend.{Backend, state_one, states_each, states}

module _ {D F C H : Type 0} ⦃d : Double D⦄ (k : Sdk D F C H) where
  -- The IDs are those of the configuration; the rest is what the library reads from the motor: its
  -- position, its velocity and its torque, each widened to `double`, and the time between feedbacks.
  abbrev pub read_from : C → MotorConfig → H → MotorState D
  read_from c m h = record {
    can_id = m.can_id;
    mst_id = m.mst_id;
    position = k.to_double (k.get_position c h);
    velocity = k.to_double (k.get_velocity c h);
    torque = k.to_double (k.get_tau c h);
    feedback_interval_s = k.get_time_interval c h;
  }

  -- One state for each motor, at its place, read from the motor that the library has under the CAN ID.
  abbrev pub Reports : C → List MotorConfig → List (MotorState D) → Type 0
  Reports c [] [] = Unit
  Reports c (m ∷ ms) (s ∷ ss) =
      ((h : H) × (k.get_motor c m.can_id ≡ some h) × (s ≡ read_from c m h)) × Reports c ms ss
  Reports c _ _ = ⊥

  state_one_iff :
      (c : C) (m : MotorConfig) (s : MotorState D)
      → (state_one k c m ≡ ok s)
        ↔ ((h : H) × (k.get_motor c m.can_id ≡ some h) × (s ≡ read_from c m h))
  unfolding state_one
  state_one_iff c m s = (
    λ e. elim (Option-cases (k.get_motor c m.can_id)) [
      | inl n ↦ absurd (ground arith)
      | inr (h, f) ↦ (h, f, ground arith)
    ],
    λ (h, f, e). ground arith,
  )

  states_each_iff :
      (c : C) (ms : List MotorConfig) (ss : List (MotorState D))
      → (states_each k c ms ≡ ok ss) ↔ Reports c ms ss
  unfolding states_each
  states_each_iff c [] [] = (λ e. tt, λ r. refl)
  states_each_iff c [] (s ∷ ss) = (λ e. absurd (cc), λ r. absurd r)
  states_each_iff c (m ∷ ms) [] = (
    λ e.
        let (s', one, more) = >>=-eq-ok (state_one k c m) _ e in
        let (ss', rest, whole) = >>=-eq-ok (states_each k c ms) _ more in absurd (cc),
    λ r. absurd r,
  )
  states_each_iff c (m ∷ ms) (s ∷ ss) = (
    λ e.
        let (s', one, more) = >>=-eq-ok (state_one k c m) _ e in
        let (ss', rest, whole) = >>=-eq-ok (states_each k c ms) _ more in
        ((state_one_iff c m s).0 (one ∙ cc), (states_each_iff c ms ss).0 (rest ∙ cc)),
    λ (one, rest). rw ((state_one_iff c m s).1 one, (states_each_iff c ms ss).1 rest) refl,
  )

  -- `states` returns exactly on a connected backend whose object has a motor under each CAN ID of the
  -- configuration, and then reports one state for each motor, in order: its IDs of the configuration, and the
  -- position, velocity, torque and feedback time that the library reads from it.
  pub states_iff :
      (b : Backend C) (ss : List (MotorState D))
      → (states k b ≡ ok ss) ↔ ((c : C) × (b.control ≡ some c) × Reports c b.config.motors ss)
  unfolding states
  states_iff b ss = (
    λ e. elim (Option-cases b.control) [
      | inl n ↦ absurd (ground arith)
      | inr (c, f) ↦ (c, f, (states_each_iff c b.config.motors ss).0 (ground arith))
    ],
    λ (c, f, r). rw (f, states) ((states_each_iff c b.config.motors ss).1 r),
  )
