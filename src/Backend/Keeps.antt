-- ===== src/Backend/Keeps.antt =====
-- The methods of dm_openarm/src/backend/dm_serial_backend.cpp and the motors that the object knows: which
-- calls leave them as they are.
use dmopenarm.Base.{
  ℕ, refl, ◌∙◌, inl, inr, Bool, true, false, List, [], ◌∷◌, Option-cases, Result, ok, err,
  Exception,
}
use dmopenarm.Base.Action.{Action, continue, throw_if, ◌>>◌}
use dmopenarm.Double.{Double}
use dmopenarm.Types.{MotorConfig, MitCommand}
use dmopenarm.Sdk.{Sdk, SdkLaws}
use dmopenarm.Backend.{send_one, send_each, sleep, persist_zero, zero_motor}
use dmopenarm.Backend.Delivery.{SameMotors}

module _ {D F C H : Type 0} ⦃d : Double D⦄ (k : Sdk D F C H) (laws : SdkLaws k) where
  abbrev pub Keeps : Action C (Unit {0}) → Type 0
  Keeps act = (c : C) → SameMotors k laws c (act c).1

  continue-Keeps :
      (next : Action C (Unit {0})) (c : C) (r : Result (Unit {0}) × C)
      → Keeps next
      → SameMotors k laws c r.1
      → SameMotors k laws c (continue (λ _. next) r).1
  continue-Keeps next c (ok tt, c') q same id = q c' id ∙ same id
  continue-Keeps next c (err e, c') q same id = same id

  Keeps-then : (act next : Action C (Unit {0})) → Keeps act → Keeps next → Keeps (act >> next)
  Keeps-then act next p q c = continue-Keeps next c (act c) q (p c)

  pub Keeps-throw_if :
      (b : Bool) (e : Exception) (next : Action C (Unit {0}))
      → Keeps next
      → Keeps (throw_if b e >> next)
  Keeps-throw_if true e next q c id = refl
  Keeps-throw_if false e next q c id = q c id

  Keeps-send_one : (m : MotorConfig) (x : MitCommand D) → Keeps (send_one k m x)
  unfolding send_one
  Keeps-send_one m x c = elim (Option-cases (k.get_motor c m.can_id)) [
    | inl e ↦ rw (e, send_one) (λ id. refl)
    | inr (h, e) ↦ rw (e, send_one) (laws.control_mit_keeps h _ _ _ _ _ c)
  ]

  pub Keeps-send_each :
      (ms : List MotorConfig) (xs : List (MitCommand D)) → Keeps (send_each k ms xs)
  unfolding send_each
  Keeps-send_each [] xs = λ c id. refl
  Keeps-send_each (m ∷ ms) [] = λ c id. refl
  Keeps-send_each (m ∷ ms) (x ∷ xs) =
      Keeps-then (send_one k m x) (send_each k ms xs) (Keeps-send_one m x) (Keeps-send_each ms xs)

  Keeps-sleep : (ms : ℕ) → Keeps (sleep k ms)
  Keeps-sleep ms = laws.sleep_for_keeps ms

  Keeps-persist_zero : (persist : Bool) (h : H) → Keeps (persist_zero k persist h)
  unfolding persist_zero
  Keeps-persist_zero false h = λ c id. refl
  Keeps-persist_zero true h =
      Keeps-then (k.save_motor_param h) (sleep k 300 >> (k.enable_all >> sleep k 100))
        (laws.save_motor_param_keeps h)
        (Keeps-then (sleep k 300) (k.enable_all >> sleep k 100) (Keeps-sleep 300)
          (Keeps-then k.enable_all (sleep k 100) laws.enable_all_keeps (Keeps-sleep 100)))

  pub Keeps-zero_motor : (persist : Bool) (h : H) → Keeps (zero_motor k persist h)
  unfolding zero_motor
  Keeps-zero_motor persist h =
      Keeps-then (k.set_zero_position h) (sleep k 100 >> persist_zero k persist h)
        (laws.set_zero_position_keeps h)
        (Keeps-then (sleep k 100) (persist_zero k persist h) (Keeps-sleep 100)
          (Keeps-persist_zero persist h))
