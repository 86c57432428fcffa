-- ===== src/Sdk/Simulated.antt =====
-- A motor bus without hardware that meets the laws, for runs and instances: it keeps its motors and
-- what it was told.
use dmopenarm.Base.{ℕ, ◌+◌, ◌≡◌, refl, some, List, [], ◌∷◌, ◌++◌, ok, arith}
use dmopenarm.Base.Int.{pos}
use dmopenarm.Text.{Text}
use dmopenarm.Double.Fixed.{Fixed, milli}
use dmopenarm.Sdk.Zeroing.{ZeroLaws}
use dmopenarm.Sdk.{DmActData, MitFrame, Sdk, SdkLaws, find_act}

pub record Bus : Type 0 where
  pub acts : List DmActData
  pub sent : List (MitFrame Fixed)
  pub zeroed : List ℕ
  pub saved : List ℕ
  pub slept : ℕ

abbrev frame_for : DmActData → Fixed → Fixed → Fixed → Fixed → Fixed → MitFrame Fixed
frame_for a kp kd q dq tau = record {
  can_id = a.can_id;
  kp = kp;
  kd = kd;
  q = q;
  dq = dq;
  tau = tau;
}

abbrev pub simulated : Sdk Fixed Fixed Bus DmActData
simulated = record {
  to_float = λ x. x;
  to_double = λ x. x;
  construct = λ nom dat serial acts.
      ok (record { acts = acts; sent = []; zeroed = []; saved = []; slept = 0 });
  get_motor = λ b id. find_act b.acts id;
  control_mit = λ a kp kd q dq tau b.
      (ok tt, record b { sent = b.sent ++ (frame_for a kp kd q dq tau ∷ []) });
  set_zero_position = λ a b. (ok tt, record b { zeroed = b.zeroed ++ (a.can_id ∷ []) });
  save_motor_param = λ a b. (ok tt, record b { saved = b.saved ++ (a.can_id ∷ []) });
  enable_all = λ b. (ok tt, b);
  get_position = λ b a. milli (pos 0);
  get_velocity = λ b a. milli (pos 0);
  get_tau = λ b a. milli (pos 0);
  get_time_interval = λ b a. milli (pos 1);
  sleep_for = λ ms b. record b { slept = b.slept + ms };
}

pub simulated_finds :
    (nom dat : ℕ) (serial : Text) (acts : List DmActData) (b : Bus) (a : DmActData) (id : ℕ)
    → simulated.construct nom dat serial acts ≡ ok b
    → find_act acts id ≡ some a
    → (h : DmActData) × (find_act b.acts id ≡ some h) × (h.can_id ≡ a.can_id)
simulated_finds nom dat serial acts b a id e f = (a, ground arith, refl)

abbrev pub simulated_laws : SdkLaws simulated
simulated_laws = record {
  id_of = λ a. a.can_id;
  frames = λ b. b.sent;
  finds = simulated_finds;
  control_mit_keeps = λ h kp kd q dq tau c id. refl;
  set_zero_position_keeps = λ h c id. refl;
  save_motor_param_keeps = λ h c id. refl;
  enable_all_keeps = λ c id. refl;
  sleep_for_keeps = λ ms c id. refl;
  control_mit_returns = λ h kp kd q dq tau c id e. refl;
  control_mit_sends = λ h kp kd q dq tau c id e. refl;
  sleep_for_sends = λ ms c. refl;
}

abbrev pub simulated_zero_laws : ZeroLaws simulated_laws
simulated_zero_laws = record {
  told = λ b. record { zeroed = b.zeroed; saved = b.saved };
  set_zero_position_returns = λ h c id e. refl;
  set_zero_position_tells = λ h c id e. refl;
  save_motor_param_returns = λ h c id e. refl;
  save_motor_param_tells = λ h c id e. refl;
  enable_all_returns = λ c. refl;
  enable_all_tells = λ c. refl;
  sleep_for_tells = λ ms c. refl;
  set_zero_position_sends = λ h c. refl;
  save_motor_param_sends = λ h c. refl;
  enable_all_sends = λ c. refl;
}
