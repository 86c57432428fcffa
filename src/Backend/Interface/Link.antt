-- ===== src/Backend/Interface/Link.antt =====
-- What dm_openarm/include/dm_openarm/backend/motor_backend.hpp promises of a backend, as an abstract link to a bus of
-- motors.
use dmopenarm.Base.{
  ℕ, Bool, true, false, not, List, [], ◌∷◌, ◌++◌, map, length, ◌==◌, replicate, Result, ok, err,
  if◌then◌else◌,
}
use dmopenarm.Base.Action.{Action}
use dmopenarm.Double.{Double}
use dmopenarm.Types.{ArmConfig, MitCommand, default_command}
use dmopenarm.Sdk.{Sdk, SdkLaws, MitFrame}
use dmopenarm.Backend.{act_data, not_connected, count_mismatch}
use dmopenarm.Backend.Delivery.{frames_for}
use dmopenarm.Backend.Interface.{
  Request, connects, disconnects, sends, sends_zero, reads_states, Answer, answered,
}

-- A link is up or down, and has sent some frames since it came up.
pub record Link (F : Type 0) : Type 0 where
  pub up : Bool
  pub sent : List (MitFrame F)

abbrev pub down : {F : Type 0} → Link F
down = record { up = false; sent = [] }

module _ {D F C H : Type 0} ⦃d : Double D⦄ (k : Sdk D F C H) (laws : SdkLaws k)
    (config : ArmConfig) where
  -- What the library's constructor says, where a link is to come up.
  abbrev pub opens : Result C → Link F → Result (Unit {0}) × Link F
  opens (ok c) l = (ok tt, record { up = true; sent = [] })
  opens (err e) l = (err e, l)

  abbrev pub construct : Result C
  construct =
      k.construct config.nom_baud config.dat_baud config.usb_serial (map act_data config.motors)

  abbrev pub link_send : Bool → List (MitCommand D) → Action (Link F) (Unit {0})
  link_send false commands l = (err not_connected, l)
  link_send true commands l =
      if not (length commands == length config.motors)
      then (err count_mismatch, l)
      else (ok tt, record l { sent = l.sent ++ frames_for k laws config.motors commands })

  abbrev pub link_connect : Bool → Action (Link F) (Unit {0})
  link_connect true l = (ok tt, l)
  link_connect false l = opens construct l

  -- There is a state for each motor of the configuration, in order, with its two IDs.
  abbrev pub link_states : Bool → Answer
  link_states true = ok (map (λ m. (m.can_id, m.mst_id)) config.motors)
  link_states false = err not_connected

  -- What a call does to a link.
  abbrev pub link_perform : Request D → Action (Link F) (List (ℕ × ℕ))
  link_perform connects l = answered (link_connect l.up l)
  link_perform disconnects l = answered (ok tt, down)
  link_perform (sends commands) l = answered (link_send l.up commands l)
  link_perform sends_zero l =
      answered (link_send l.up (replicate (length config.motors) default_command) l)
  link_perform reads_states l = (link_states l.up, l)

  abbrev pub link_perform_all : List (Request D) → Link F → List Answer × Link F
  link_perform_all [] l = ([], l)
  link_perform_all (request ∷ requests) l =
      let (r, m) = link_perform request l in
      let (rs, n) = link_perform_all requests m in (r ∷ rs, n)
