-- ===== src/Program/Live.antt =====
-- What a part of the programs under dm_openarm/examples sends, on an arm that is connected and finds its
-- motors.
use dmopenarm.Base.{
  ℕ, suc, ◌≡◌, refl, sym, ap, ◌∙◌, subst, Option, some, List, [], ◌∷◌, ◌++◌, append-nil,
  append_assoc, length, length-replicate, replicate, All, Result, ok,
}
use dmopenarm.Base.Action.{Action, continue, continue-of_ok, ◌>>=◌, ◌>>◌}
use dmopenarm.Double.{Double}
use dmopenarm.Types.{MotorConfig, MitCommand, MotorState, default_command}
use dmopenarm.Sdk.{MitFrame, Sdk, SdkLaws}
use dmopenarm.Backend.{Backend, state_of}
use dmopenarm.Backend
use dmopenarm.Backend.Delivery.{
  IsRegistered, IsRegistered-SameMotors, Sends, frames_for, send_mit_all-Sends,
}
use dmopenarm.Backend.Feedback.{Reports, states_iff}
use dmopenarm.Arm
use dmopenarm.Program.{Line, Program, write, send_zero, on_arm, read_states, sleep}

module _ {D F C H : Type 0} ⦃d : Double D⦄ (k : Sdk D F C H) (laws : SdkLaws k) where
  open laws use {frames}

  -- Connected, with each of these motors found under its own CAN ID.
  pub record IsLive (ms : List MotorConfig) (b : Backend C) (c : C) : Type 0 where
    pub connected : b.control ≡ some c
    pub motors : b.config.motors ≡ ms
    pub registered : All (IsRegistered k laws c) ms

  abbrev with_control : Backend C → Option C → Backend C
  with_control b o = record b { control = o }

  -- What part of a program did to the backend of its arm.
  abbrev pub Does : Program D C → C → List (MitFrame F) → Result (Unit {0}) × Program D C → Type 0
  Does p c sent r = Sends k laws p.arm.backend c sent (r.0, r.1.arm.backend)

  pub IsLive-Sends :
      (ms : List MotorConfig) (b : Backend C) (c : C) (sent : List (MitFrame F))
      (r : Result (Unit {0}) × Backend C)
      → IsLive ms b c
      → (s : Sends k laws b c sent r) → IsLive ms r.1 s.after
  IsLive-Sends ms b c sent r v s = record {
    connected = ap (λ g. g.control) s.backend;
    motors = ap (λ g. g.config.motors) s.backend ∙ v.motors;
    registered = IsRegistered-SameMotors k laws c s.after ms s.same v.registered;
  }

  -- One part after another.
  Does-continue :
      (p : Program D C) (c : C) (xs ys : List (MitFrame F)) (next : Action (Program D C) (Unit {0}))
      (r : Result (Unit {0}) × Program D C)
      → (first : Does p c xs r) → Does r.1 first.after ys (next r.1)
      → Does p c (xs ++ ys) (continue (λ _. next) r)
  Does-continue p c xs ys next r first second =
      rw (continue-of_ok (λ _. next) r tt first.returned) (record {
        after = second.after;
        returned = second.returned;
        backend = second.backend ∙ ap (λ b. with_control b (some second.after)) first.backend;
        delivered =
            second.delivered ∙ ap (λ f. f ++ ys) first.delivered ∙ append_assoc (frames c) xs ys;
        same = λ id. second.same id ∙ first.same id;
      })

  -- The states that a live backend reports.
  abbrev pub reported :
      (c : C) (ms : List MotorConfig) → All (IsRegistered k laws c) ms → List (MotorState D)
  reported c [] _ = []
  reported c (m ∷ ms) (v, vs) = state_of k c m v.handle ∷ reported c ms vs

  pub length-reported :
      (c : C) (ms : List MotorConfig) (v : All (IsRegistered k laws c) ms)
      → length (reported c ms v) ≡ length ms
  length-reported c [] v = refl
  length-reported c (m ∷ ms) (v, vs) = ap suc (length-reported c ms vs)

  Reports-reported :
      (c : C) (ms : List MotorConfig) (v : All (IsRegistered k laws c) ms)
      → Reports k c ms (reported c ms v)
  Reports-reported c [] v = tt
  Reports-reported c (m ∷ ms) (v, vs) = ((v.handle, v.found, refl), Reports-reported c ms vs)

  module _ (ms : List MotorConfig) where
    pub Does-write :
        (p : Program D C) (c : C) (lines : List (Line D))
        → IsLive ms p.arm.backend c
        → Does p c [] (write lines p)
    Does-write p c lines v = record {
      after = c;
      returned = refl;
      backend = ap (with_control p.arm.backend) v.connected;
      delivered = sym (append-nil (frames c));
      same = λ id. refl;
    }

    pub Does-sleep :
        (p : Program D C) (c : C) (period : ℕ)
        → IsLive ms p.arm.backend c
        → Does p c [] (sleep k period p)
    Does-sleep p c period v = record {
      after = k.sleep_for period c;
      returned = refl;
      backend = ap (λ o. with_control p.arm.backend (Arm.rest k period o)) v.connected;
      delivered = laws.sleep_for_sends period c ∙ sym (append-nil (frames c));
      same = λ id. laws.sleep_for_keeps period c id;
    }

    pub Does-send_mit_all :
        (p : Program D C) (c : C) (commands : List (MitCommand D))
        → IsLive ms p.arm.backend c
        → length commands ≡ length ms
        → Does p c (frames_for k laws ms commands) (on_arm (Arm.send_mit_all k commands) p)
    unfolding Arm.send_mit_all
    Does-send_mit_all p c commands v n =
        subst
          (λ ns.
            Sends k laws p.arm.backend c (frames_for k laws ns commands)
              (Backend.send_mit_all k commands p.arm.backend))
          v.motors
          (send_mit_all-Sends k laws p.arm.backend c commands v.connected
            (subst (All (IsRegistered k laws c)) (sym v.motors) v.registered)
            (n ∙ sym (ap length v.motors)))

    -- The frames of a `send_zero_mit_all`.
    abbrev pub zero_frames : List (MitFrame F)
    zero_frames = frames_for k laws ms (replicate (length ms) default_command)

    pub Does-send_zero :
        (p : Program D C) (c : C) → IsLive ms p.arm.backend c → Does p c zero_frames (send_zero k p)
    unfolding Arm.send_zero_mit_all Arm.send_mit_all Backend.send_zero_mit_all
    Does-send_zero p c v =
        subst
          (λ n.
            Sends k laws p.arm.backend c zero_frames
              (Backend.send_mit_all k (replicate n default_command) p.arm.backend))
          (sym (ap length v.motors))
          (Does-send_mit_all p c (replicate (length ms) default_command) v
            (length-replicate (length ms) default_command))

    pub states-reported :
        (p : Program D C) (c : C) (v : IsLive ms p.arm.backend c)
        → Arm.states k p.arm ≡ ok (reported c ms v.registered)
    unfolding Arm.states
    states-reported p c v =
        (states_iff k p.arm.backend (reported c ms v.registered)).1
          (c, v.connected, rw (v.motors) (Reports-reported c ms v.registered))

    pub states-live :
        (p : Program D C) (c : C)
        → IsLive ms p.arm.backend c
        → (ss : List (MotorState D)) × (Arm.states k p.arm ≡ ok ss) × (length ss ≡ length ms)
    states-live p c v =
        (reported c ms v.registered, states-reported p c v, length-reported c ms v.registered)

    -- Reading the states first changes nothing.
    pub Does-read :
        (p : Program D C) (c : C) (xs : List (MitFrame F))
        (next : List (MotorState D) → Action (Program D C) (Unit {0}))
        → IsLive ms p.arm.backend c
        → ((ss : List (MotorState D)) → length ss ≡ length ms → Does p c xs (next ss p))
        → Does p c xs ((read_states k >>= next) p)
    Does-read p c xs next v q = let (ss, e, n) = states-live p c v in rw e (q ss n)

    -- One part after another, from any live moment.
    pub Does-then :
        (p : Program D C) (c : C) (xs ys : List (MitFrame F))
        (act next : Action (Program D C) (Unit {0}))
        → IsLive ms p.arm.backend c
        → Does p c xs (act p)
        → ((q : Program D C) (e : C) → IsLive ms q.arm.backend e → Does q e ys (next q))
        → Does p c (xs ++ ys) ((act >> next) p)
    Does-then p c xs ys act next v first rest = Does-continue p c xs ys next (act p) first (
        rest (act p).1 first.after
          (IsLive-Sends ms p.arm.backend c xs ((act p).0, (act p).1.arm.backend) v first))
