-- ===== src/Backend/Errors.antt =====
-- The error paths of dm_openarm/src/backend/dm_serial_backend.cpp: what each method throws, and what it has done
-- by then.
use dmopenarm.Base.{ℕ, ◌≡◌, refl, ap, Bool, none, List, [], ◌∷◌, arith, ok, err, if◌then◌else◌}
use dmopenarm.Base.Action.{Action, continue}
use dmopenarm.Text.{is_empty}
use dmopenarm.Double.{Double}
use dmopenarm.Types.{MotorConfig, MitCommand}
use dmopenarm.Sdk.{Sdk}
use dmopenarm.Backend.{
  Backend, on_control, not_connected, send_mit_all, send_zero_mit_all, set_zero, set_zero_each,
  set_zero_all, states,
}

on_control-disconnected :
    {C A : Type 0} (act : Action C A) (b : Backend C)
    → b.control ≡ none
    → on_control act b ≡ (err not_connected, b)
unfolding on_control
on_control-disconnected act b e = ground arith

module _ {D F C H : Type 0} ⦃d : Double D⦄ (k : Sdk D F C H) where
  set_zero_each-disconnected :
      (ms : List MotorConfig) (persist : Bool) (b : Backend C)
      → b.control ≡ none
      → set_zero_each k ms persist b ≡ (if is_empty ms then ok tt else err not_connected, b)
  unfolding set_zero_each set_zero
  set_zero_each-disconnected [] persist b e = refl
  set_zero_each-disconnected (m ∷ ms) persist b e =
      ap (continue (λ _. set_zero_each k ms persist)) (on_control-disconnected _ b e)

  pub disconnected_throws :
      (b : Backend C) (commands : List (MitCommand D)) (id : ℕ) (persist : Bool)
      → b.control ≡ none
      → (send_mit_all k commands b ≡ (err not_connected, b))
        × (send_zero_mit_all k b ≡ (err not_connected, b))
        × (set_zero k id persist b ≡ (err not_connected, b))
        × (set_zero_all k persist b
            ≡ (if is_empty b.config.motors then ok tt else err not_connected, b))
        × (states k b ≡ err not_connected)
  unfolding send_mit_all send_zero_mit_all set_zero set_zero_all states
  disconnected_throws b commands id persist e = (
    on_control-disconnected _ b e,
    on_control-disconnected _ b e,
    on_control-disconnected _ b e,
    set_zero_each-disconnected b.config.motors persist b e,
    rw (e, states),
  )
