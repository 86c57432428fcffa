-- ===== src/Backend/Interface.antt =====
-- dm_openarm/include/dm_openarm/backend/motor_backend.hpp: the abstract class of backends as a record of its methods,
-- `DmSerialBackend` as one of them (it has the methods, though it does not derive from the class), and a client that makes
-- calls and keeps what each returned or threw.
pub mod Agreeing
pub mod Link
pub mod Refines
use dmopenarm.Base.{ℕ, Bool, List, [], ◌∷◌, map, Result, ok, err}
use dmopenarm.Base.Action.{Action}
use dmopenarm.Double.{Double}
use dmopenarm.Types.{MitCommand, MotorState}
use dmopenarm.Sdk.{Sdk}
use dmopenarm.Backend as Serial
use dmopenarm.Backend.{Backend}

pub record MotorBackend (D S : Type 0) : Type 0 where
  pub connect : Action S (Unit {0})
  pub disconnect : S → S
  pub connected : S → Bool
  pub send_mit_all : List (MitCommand D) → Action S (Unit {0})
  pub send_zero_mit_all : Action S (Unit {0})
  pub states : S → Result (List (MotorState D))

unfoldable pub serial : {D F C H : Type 0} ⦃d : Double D⦄ → Sdk D F C H → MotorBackend D (Backend C)
unfolding Serial.connected
serial k = record {
  connect = Serial.connect k;
  disconnect = Serial.disconnect;
  connected = Serial.connected;
  send_mit_all = Serial.send_mit_all k;
  send_zero_mit_all = Serial.send_zero_mit_all k;
  states = Serial.states k;
}

-- A call of a method other than `connected`, which returns no error.
pub data Request (D : Type 0) : Type 0 where
  connects disconnects sends_zero reads_states : Request D
  sends : List (MitCommand D) → Request D

-- What a call returned or threw: for `states`, the CAN ID and the MST ID of each state, and nothing for
-- the others.
abbrev pub Answer : Type 0
Answer = Result (List (ℕ × ℕ))

abbrev pub blank : Result (Unit {0}) → Answer
blank (ok _) = ok []
blank (err e) = err e

abbrev pub answered : {S : Type 0} → Result (Unit {0}) × S → Answer × S
answered (r, s) = (blank r, s)

abbrev pub ids_of : {D : Type 0} → Result (List (MotorState D)) → Answer
ids_of (ok states) = ok (map (λ s. (s.can_id, s.mst_id)) states)
ids_of (err e) = err e

module _ {D S : Type 0} (m : MotorBackend D S) where
  unfoldable pub perform : Request D → Action S (List (ℕ × ℕ))
  perform connects s = answered (m.connect s)
  perform disconnects s = answered (ok tt, m.disconnect s)
  perform sends_zero s = answered (m.send_zero_mit_all s)
  perform (sends commands) s = answered (m.send_mit_all commands s)
  perform reads_states s = (ids_of (m.states s), s)

  -- One call after another, whether they return or throw.
  unfoldable pub perform_all : List (Request D) → S → List Answer × S
  unfolding perform
  perform_all [] s = ([], s)
  perform_all (request ∷ requests) s =
      let (r, t) = perform request s in let (rs, u) = perform_all requests t in (r ∷ rs, u)
