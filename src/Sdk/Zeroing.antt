-- ===== src/Sdk/Zeroing.antt =====
-- The documented behaviour of dm_openarm/third_party/damiao_sdk that setting a zero position rests on, with a reading of
-- what the motors were told.
use dmopenarm.Base.{ℕ, ◌≡◌, some, List, [], ◌∷◌, ◌++◌, ok}
use dmopenarm.Sdk.{Sdk, SdkLaws}

-- The CAN IDs of the motors that set their zero position, and of those that wrote their flash, the
-- oldest first.
pub record Told : Type 0 where
  pub zeroed : List ℕ
  pub saved : List ℕ

abbrev pub zeroes_one : ℕ → Told → Told
zeroes_one id t = record t { zeroed = t.zeroed ++ (id ∷ []) }

abbrev pub saves_one : ℕ → Told → Told
saves_one id t = record t { saved = t.saved ++ (id ∷ []) }

pub record ZeroLaws {D F C H : Type 0} {k : Sdk D F C H} (laws : SdkLaws k) : Type 0 where
  pub told : C → Told
  -- For a motor of the object the calls return, and tell that motor.
  pub set_zero_position_returns :
      (h : H) (c : C) (id : ℕ) → k.get_motor c id ≡ some h → (k.set_zero_position h c).0 ≡ ok tt
  pub set_zero_position_tells :
      (h : H) (c : C) (id : ℕ)
      → k.get_motor c id ≡ some h
      → told (k.set_zero_position h c).1 ≡ zeroes_one (laws.id_of h) (told c)
  pub save_motor_param_returns :
      (h : H) (c : C) (id : ℕ) → k.get_motor c id ≡ some h → (k.save_motor_param h c).0 ≡ ok tt
  pub save_motor_param_tells :
      (h : H) (c : C) (id : ℕ)
      → k.get_motor c id ≡ some h
      → told (k.save_motor_param h c).1 ≡ saves_one (laws.id_of h) (told c)
  pub enable_all_returns : (c : C) → (k.enable_all c).0 ≡ ok tt
  pub enable_all_tells : (c : C) → told (k.enable_all c).1 ≡ told c
  pub sleep_for_tells : (ms : ℕ) (c : C) → told (k.sleep_for ms c) ≡ told c
  -- None of them sends a MIT frame.
  pub set_zero_position_sends :
      (h : H) (c : C) → laws.frames (k.set_zero_position h c).1 ≡ laws.frames c
  pub save_motor_param_sends :
      (h : H) (c : C) → laws.frames (k.save_motor_param h c).1 ≡ laws.frames c
  pub enable_all_sends : (c : C) → laws.frames (k.enable_all c).1 ≡ laws.frames c
