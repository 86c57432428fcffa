-- ===== src/Backend/History.antt =====
-- The backend of dm_openarm/src/backend/dm_serial_backend.cpp over any sequence of calls.
use dmopenarm.Base.{
  ℕ, ◌≡◌, refl, subst, inl, inr, Bool, not, Option, none, some, List, [], ◌∷◌, map, length, All,
  Option-cases, Result, ok, err, ◌==◌,
}
use dmopenarm.Base.Action.{Action, continue}
use dmopenarm.Text.{Text}
use dmopenarm.Double.{Double}
use dmopenarm.Types.{MotorConfig, ArmConfig, MitCommand}
use dmopenarm.Loader.Distinct.{Distinct}
use dmopenarm.Loader.Motors.{can_ids_of}
use dmopenarm.Sdk.{DmActData, Sdk, SdkLaws}
use dmopenarm.Backend.{
  Backend, make, connect, install, disconnect, on_control, act_data, send_mit_all,
  send_zero_mit_all, count_mismatch, zero_at, set_zero, set_zero_each, set_zero_all,
}
use dmopenarm.Backend.Registry.{Uncrossed, FindsOwn, find_act-own}
use dmopenarm.Backend.Delivery.{
  IsRegistered, IsRegistered-SameMotors, Sends, frames_for, send_mit_all-Sends,
}
use dmopenarm.Backend.Keeps.{Keeps, Keeps-throw_if, Keeps-send_each, Keeps-zero_motor}

-- The public methods that change the backend.
pub data Call (D : Type 0) : Type 0 where
  connects disconnects sends_zero : Call D
  sends : List (MitCommand D) → Call D
  zeroes : ℕ → Bool → Call D
  zeroes_all : Bool → Call D

module _ {D F C H : Type 0} ⦃d : Double D⦄ (k : Sdk D F C H) (laws : SdkLaws k) where
  -- The backend after a call, whether it returned or threw.
  unfoldable pub after : Backend C → Call D → Backend C
  after b connects = (connect k b).1
  after b disconnects = disconnect b
  after b (sends commands) = (send_mit_all k commands b).1
  after b sends_zero = (send_zero_mit_all k b).1
  after b (zeroes id persist) = (set_zero k id persist b).1
  after b (zeroes_all persist) = (set_zero_all k persist b).1

  unfoldable pub run : Backend C → List (Call D) → Backend C
  run b [] = b
  run b (call ∷ calls) = run (after b call) calls

  -- The configuration is sound, and a connected backend finds each of its motors.
  abbrev pub Bound : List MotorConfig → Option C → Type 0
  Bound ms none = Unit
  Bound ms (some c) = All (IsRegistered k laws c) ms

  pub record IsReady (config : ArmConfig) (b : Backend C) : Type 0 where
    pub same : b.config ≡ config
    pub distinct : Distinct (can_ids_of b.config.motors)
    pub uncrossed : Uncrossed b.config.motors
    pub bound : Bound b.config.motors b.control

  module _ (config : ArmConfig) where
    on_control-IsReady :
        (act : Action C (Unit {0})) (b : Backend C)
        → Keeps k laws act
        → IsReady config b
        → IsReady config (on_control act b).1
    unfolding on_control
    on_control-IsReady act b q v = elim (Option-cases b.control) [
      | inl e ↦ rw (e, on_control) v
      | inr (c, e) ↦
          rw (e, on_control)
            (record {
              same = v.same;
              distinct = v.distinct;
              uncrossed = v.uncrossed;
              bound =
                  IsRegistered-SameMotors k laws c (act c).1 b.config.motors (q c)
                    (subst (Bound b.config.motors) e v.bound);
            })
    ]

    registered :
        (acts : List DmActData) (ms : List MotorConfig) (nom dat : ℕ) (serial : Text) (c : C)
        → FindsOwn acts ms
        → k.construct nom dat serial acts ≡ ok c
        → All (IsRegistered k laws c) ms
    registered acts [] nom dat serial c f e = tt
    registered acts (m ∷ ms) nom dat serial c (f, fs) e =
        let (h, found, own) = laws.finds nom dat serial acts c (act_data m) m.can_id e f in
        (record { handle = h; found = found; own = own }, registered acts ms nom dat serial c fs e)

    install-IsReady :
        (b : Backend C) (acts : List DmActData) (nom dat : ℕ) (serial : Text) (r : Result C)
        → acts ≡ map act_data b.config.motors
        → k.construct nom dat serial acts ≡ r
        → b.control ≡ none
        → IsReady config b
        → IsReady config (install k (record b { init_data = acts }) r).1
    unfolding install
    install-IsReady b acts nom dat serial (err x) a e n v = record {
      same = v.same;
      distinct = v.distinct;
      uncrossed = v.uncrossed;
      bound = v.bound;
    }
    install-IsReady b acts nom dat serial (ok c) a e n v = record {
      same = v.same;
      distinct = v.distinct;
      uncrossed = v.uncrossed;
      bound =
          registered acts b.config.motors nom dat serial c
            (rw a (find_act-own b.config.motors v.distinct v.uncrossed)) e;
    }

    connect-IsReady : (b : Backend C) → IsReady config b → IsReady config (connect k b).1
    unfolding connect
    connect-IsReady b v = elim (Option-cases b.control) [
      | inr (c, e) ↦ rw (e, connect) v
      | inl e ↦ rw (e, connect) (install-IsReady b _ _ _ _ _ refl refl e v)
    ]

    send_mit_all-IsReady :
        (commands : List (MitCommand D)) (b : Backend C)
        → IsReady config b
        → IsReady config (send_mit_all k commands b).1
    unfolding send_mit_all
    send_mit_all-IsReady commands b = on_control-IsReady _ b (
        Keeps-throw_if k laws (not (length commands == length b.config.motors)) count_mismatch _
          (Keeps-send_each k laws b.config.motors commands))

    Keeps-set_zero : (id : ℕ) (persist : Bool) → Keeps k laws (zero_at k id persist)
    unfolding zero_at
    Keeps-set_zero id persist c = elim (Option-cases (k.get_motor c id)) [
      | inl e ↦ rw (e, zero_at) (λ j. refl)
      | inr (h, e) ↦ rw (e, zero_at) (Keeps-zero_motor k laws persist h c)
    ]

    set_zero-IsReady :
        (id : ℕ) (persist : Bool) (b : Backend C)
        → IsReady config b
        → IsReady config (set_zero k id persist b).1
    unfolding set_zero
    set_zero-IsReady id persist b =
        on_control-IsReady (zero_at k id persist) b (Keeps-set_zero id persist)

    continue-IsReady :
        (next : Action (Backend C) (Unit {0})) (r : Result (Unit {0}) × Backend C)
        → ((b : Backend C) → IsReady config b → IsReady config (next b).1)
        → IsReady config r.1
        → IsReady config (continue (λ _. next) r).1
    continue-IsReady next (ok tt, b) q v = q b v
    continue-IsReady next (err e, b) q v = v

    set_zero_each-IsReady :
        (ms : List MotorConfig) (persist : Bool) (b : Backend C)
        → IsReady config b
        → IsReady config (set_zero_each k ms persist b).1
    unfolding set_zero_each
    set_zero_each-IsReady [] persist b v = v
    set_zero_each-IsReady (m ∷ ms) persist b v =
        continue-IsReady (set_zero_each k ms persist) (set_zero k m.can_id persist b)
          (set_zero_each-IsReady ms persist) (set_zero-IsReady m.can_id persist b v)

    pub after-IsReady :
        (b : Backend C) (call : Call D) → IsReady config b → IsReady config (after b call)
    unfolding after disconnect send_zero_mit_all set_zero_all
    after-IsReady b connects v = connect-IsReady b v
    after-IsReady b disconnects v = record {
      same = v.same;
      distinct = v.distinct;
      uncrossed = v.uncrossed;
      bound = tt;
    }
    after-IsReady b (sends commands) v = send_mit_all-IsReady commands b v
    after-IsReady b sends_zero v = send_mit_all-IsReady _ b v
    after-IsReady b (zeroes id persist) v = set_zero-IsReady id persist b v
    after-IsReady b (zeroes_all persist) v = set_zero_each-IsReady b.config.motors persist b v

    pub run-IsReady :
        (b : Backend C) (calls : List (Call D)) → IsReady config b → IsReady config (run b calls)
    unfolding run
    run-IsReady b [] v = v
    run-IsReady b (call ∷ calls) v = run-IsReady (after b call) calls (after-IsReady b call v)

    pub make-IsReady :
        Distinct (can_ids_of config.motors) → Uncrossed config.motors → IsReady config (make config)
    unfolding make
    make-IsReady d u = record { same = refl; distinct = d; uncrossed = u; bound = tt }

  -- After any calls on a backend whose configuration has no CAN ID twice and none that is the MST ID
  -- of a motor before: if it is connected, one command for each motor is sent, in order, each to the
  -- motor at its place.
  pub run-Sends :
      (config : ArmConfig) (calls : List (Call D)) (commands : List (MitCommand D)) (c : C)
      → Distinct (can_ids_of config.motors)
      → Uncrossed config.motors
      → (run (make config) calls).control ≡ some c
      → length commands ≡ length config.motors
      → Sends k laws
          (run (make config) calls)
          c
          (frames_for k laws config.motors commands)
          (send_mit_all k commands (run (make config) calls))
  run-Sends config calls commands c d u e n =
      let b = run (make config) calls in
      let v = run-IsReady config (make config) calls (make-IsReady config d u) in
      subst
        (λ g. Sends k laws b c (frames_for k laws g.motors commands) (send_mit_all k commands b))
        v.same
        (send_mit_all-Sends k laws b c commands e (subst (Bound b.config.motors) e v.bound)
          (rw v.same n))
