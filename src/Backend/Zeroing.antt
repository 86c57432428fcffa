-- ===== src/Backend/Zeroing.antt =====
-- What `set_zero` of dm_openarm/src/backend/dm_serial_backend.cpp tells the motors.
use dmopenarm.Base.{ℕ, ◌≡◌, refl, ap, ◌∙◌, Bool, true, false, some, Result, ok}
use dmopenarm.Base.Action.{Action, continue-of_ok, ◌>>◌}
use dmopenarm.Double.{Double}
use dmopenarm.Sdk.{Sdk, SdkLaws}
use dmopenarm.Sdk.Zeroing.{Told, zeroes_one, saves_one, ZeroLaws}
use dmopenarm.Backend.{Backend, sleep, persist_zero, zero_motor, zero_at, set_zero}
use dmopenarm.Backend.Delivery.{SameMotors, on_control-connected}

abbrev pub saves_if : Bool → ℕ → Told → Told
saves_if true id t = saves_one id t
saves_if false id t = t

module _ {D F C H : Type 0} ⦃d : Double D⦄ (k : Sdk D F C H) (laws : SdkLaws k)
    (zero : ZeroLaws laws) where
  open zero use {told}

  -- A call that returned, told the motors this much, sent no MIT frame and kept the motors.
  pub record Tells (c : C) (t : Told) (r : Result (Unit {0}) × C) : Type 0 where
    pub returned : r.0 ≡ ok tt
    pub told_then : told r.1 ≡ t
    pub quiet : laws.frames r.1 ≡ laws.frames c
    pub same : SameMotors k laws c r.1

  persist_zero-Tells :
      (persist : Bool) (h : H) (c : C) (id : ℕ)
      → k.get_motor c id ≡ some h
      → Tells c (saves_if persist (laws.id_of h) (told c)) (persist_zero k persist h c)
  unfolding persist_zero
  persist_zero-Tells false h c id e = record {
    returned = refl;
    told_then = refl;
    quiet = refl;
    same = λ j. refl;
  }
  persist_zero-Tells true h c id e =
      let saved = k.save_motor_param h c in
      let rested = k.sleep_for 300 saved.1 in
      let enabled = k.enable_all rested in
      let later : Action C (Unit {0}) = k.enable_all >> sleep k 100 in
      rw
        (
          continue-of_ok (λ _. sleep k 300 >> later) saved tt
              (zero.save_motor_param_returns h c id e),
          continue-of_ok (λ _. sleep k 100) enabled tt (zero.enable_all_returns rested),
        )
        (record {
          returned = refl;
          told_then =
              zero.sleep_for_tells 100 enabled.1
              ∙ zero.enable_all_tells rested
              ∙ zero.sleep_for_tells 300 saved.1
              ∙ zero.save_motor_param_tells h c id e;
          quiet =
              laws.sleep_for_sends 100 enabled.1
              ∙ zero.enable_all_sends rested
              ∙ laws.sleep_for_sends 300 saved.1
              ∙ zero.save_motor_param_sends h c;
          same = λ j.
              laws.sleep_for_keeps 100 enabled.1 j
              ∙ laws.enable_all_keeps rested j
              ∙ laws.sleep_for_keeps 300 saved.1 j
              ∙ laws.save_motor_param_keeps h c j;
        })

  zero_motor-Tells :
      (persist : Bool) (h : H) (c : C) (id : ℕ)
      → k.get_motor c id ≡ some h
      → Tells c
          (saves_if persist (laws.id_of h) (zeroes_one (laws.id_of h) (told c)))
          (zero_motor k persist h c)
  unfolding zero_motor
  zero_motor-Tells persist h c id e =
      let set = k.set_zero_position h c in
      let rested = k.sleep_for 100 set.1 in
      let kept : SameMotors k laws c rested =
        λ j. laws.sleep_for_keeps 100 set.1 j ∙ laws.set_zero_position_keeps h c j in
      let last = persist_zero-Tells persist h rested id (kept id ∙ e) in
      rw
        (continue-of_ok (λ _. sleep k 100 >> persist_zero k persist h) set tt
          (zero.set_zero_position_returns h c id e))
        (record {
          returned = last.returned;
          told_then =
              last.told_then
              ∙ ap (saves_if persist (laws.id_of h))
                  (zero.sleep_for_tells 100 set.1 ∙ zero.set_zero_position_tells h c id e);
          quiet = last.quiet ∙ laws.sleep_for_sends 100 set.1 ∙ zero.set_zero_position_sends h c;
          same = λ j. last.same j ∙ kept j;
        })

  zero_at-Tells :
      (persist : Bool) (h : H) (c : C) (id : ℕ)
      → k.get_motor c id ≡ some h
      → Tells c
          (saves_if persist (laws.id_of h) (zeroes_one (laws.id_of h) (told c)))
          (zero_at k id persist c)
  unfolding zero_at
  zero_at-Tells persist h c id e = rw (e, zero_at) (zero_motor-Tells persist h c id e)

  -- On a connected backend that has a motor under this number, `set_zero` returns, has told just this motor
  -- to set its zero position and, where it persists, to write its flash, and has sent no motor a command.
  pub set_zero-Tells :
      (persist : Bool) (h : H) (b : Backend C) (c : C) (id : ℕ)
      → b.control ≡ some c
      → k.get_motor c id ≡ some h
      → (after : C) × (set_zero k id persist b ≡ (ok tt, record b { control = some after }))
        × (told after ≡ saves_if persist (laws.id_of h) (zeroes_one (laws.id_of h) (told c)))
        × (laws.frames after ≡ laws.frames c)
        × SameMotors k laws c after
  unfolding set_zero
  set_zero-Tells persist h b c id up e =
      let v = zero_at-Tells persist h c id e in
      (
        (zero_at k id persist c).1,
        on_control-connected (zero_at k id persist) b c up
            ∙ ap (λ r. (r, record b { control = some (zero_at k id persist c).1 })) v.returned,
        v.told_then,
        v.quiet,
        v.same,
      )
