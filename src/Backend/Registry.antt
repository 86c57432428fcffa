-- ===== src/Backend/Registry.antt =====
-- When the object that `connect` of dm_openarm/src/backend/dm_serial_backend.cpp makes finds each motor of the
-- configuration under its own CAN ID.
use dmopenarm.Base.{◌≡◌, ◌≢◌, some, List, [], ◌∷◌, map, arith, All, ==_refl}
use dmopenarm.Types.{MotorConfig}
use dmopenarm.Loader.Distinct.{Distinct, Absent}
use dmopenarm.Loader.Motors.{can_ids_of}
use dmopenarm.Sdk.{DmActData, find_act}
use dmopenarm.Backend.{act_data}

-- No motor has, as its CAN ID, the MST ID of a motor before it.
abbrev pub Uncrossed : List MotorConfig → Type 0
Uncrossed [] = Unit
Uncrossed (m ∷ ms) = All (λ n. n.can_id ≢ m.mst_id) ms × Uncrossed ms

abbrev pub FindsOwn : List DmActData → List MotorConfig → Type 0
FindsOwn acts = All (λ m. find_act acts m.can_id ≡ some (act_data m))

FindsOwn-skip :
    (m : MotorConfig) (acts : List DmActData) (ms : List MotorConfig)
    → Absent m.can_id (can_ids_of ms)
    → All (λ n. n.can_id ≢ m.mst_id) ms
    → FindsOwn acts ms
    → FindsOwn (act_data m ∷ acts) ms
unfolding find_act
FindsOwn-skip m acts [] a u f = tt
FindsOwn-skip m acts (n ∷ ms) (a, as') (u, us) (f, fs) =
    (ground (arith), FindsOwn-skip m acts ms as' us fs)

-- With distinct and uncrossed IDs the first motor registered under a motor's CAN ID is that motor.
pub find_act-own :
    (ms : List MotorConfig)
    → Distinct (can_ids_of ms)
    → Uncrossed ms
    → FindsOwn (map act_data ms) ms
unfolding find_act
find_act-own [] d u = tt
find_act-own (m ∷ ms) (a, d) (u, us) =
    (rw (==_refl m.can_id), FindsOwn-skip m (map act_data ms) ms a u (find_act-own ms d us))
