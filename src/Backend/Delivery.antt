-- ===== src/Backend/Delivery.antt =====
-- What `send_mit_all` of dm_openarm/src/backend/dm_serial_backend.cpp sends, and to whom.
use dmopenarm.Base.{
  ℕ, ◌≡◌, refl, sym, ap, ◌∙◌, some, List, [], ◌∷◌, ◌++◌, append-nil, append_assoc, arith, length,
  All, ==_refl, Result, ok, Exception, not, ◌==◌,
}
use dmopenarm.Base.Action.{Action, throw_if, continue-of_ok, ◌>>◌}
use dmopenarm.Double.{Double}
use dmopenarm.Types.{MotorConfig, MitCommand}
use dmopenarm.Sdk.{MitFrame, Sdk, SdkLaws}
use dmopenarm.Backend.{Backend, on_control, send_one, send_each, send_mit_all, count_mismatch}

pub on_control-connected :
    {C A : Type 0} (act : Action C A) (b : Backend C) (c : C)
    → b.control ≡ some c
    → on_control act b ≡ ((act c).0, record b { control = some (act c).1 })
unfolding on_control
on_control-connected act b c e = rw (e, on_control)

guarded :
    {C : Type 0} (n m : ℕ) (e : Exception) (act : Action C (Unit {0})) (c : C)
    → n ≡ m
    → (throw_if (not (n == m)) e >> act) c ≡ act c
guarded n m e act c h = rw (h, ==_refl m)

module _ {D F C H : Type 0} ⦃d : Double D⦄ (k : Sdk D F C H) where
  -- Past its two tests `send_mit_all` is its loop.
  pub send_mit_all-loop :
      (b : Backend C) (c : C) (commands : List (MitCommand D))
      → b.control ≡ some c
      → length commands ≡ length b.config.motors
      → let r = send_each k b.config.motors commands c in
        send_mit_all k commands b ≡ (r.0, record b { control = some r.1 })
  unfolding send_mit_all
  send_mit_all-loop b c commands e n =
      let guard : Action C (Unit {0}) =
        throw_if (not (length commands == length b.config.motors)) count_mismatch in
      on_control-connected (guard >> send_each k b.config.motors commands) b c e
      ∙ ap (λ r. (r.0, record b { control = some r.1 }))
          (guarded (length commands) (length b.config.motors) count_mismatch
            (send_each k b.config.motors commands) c n)

module _ {D F C H : Type 0} ⦃d : Double D⦄ (k : Sdk D F C H) (laws : SdkLaws k) where
  open laws use {id_of, frames}

  -- The object finds this motor under its CAN ID, and not another one.
  pub record IsRegistered (c : C) (m : MotorConfig) : Type 0 where
    pub handle : H
    pub found : k.get_motor c m.can_id ≡ some handle
    pub own : id_of handle ≡ m.can_id

  abbrev pub SameMotors : C → C → Type 0
  SameMotors c c' = (id : ℕ) → k.get_motor c' id ≡ k.get_motor c id

  pub IsRegistered-SameMotors :
      (c c' : C) (ms : List MotorConfig)
      → SameMotors c c'
      → All (IsRegistered c) ms
      → All (IsRegistered c') ms
  IsRegistered-SameMotors c c' [] same a = tt
  IsRegistered-SameMotors c c' (m ∷ ms) same (a, rest) = (
    record { handle = a.handle; found = same m.can_id ∙ a.found; own = a.own },
    IsRegistered-SameMotors c c' ms same rest,
  )

  -- The frame that a command is for a motor with this CAN ID.
  abbrev pub frame_to : ℕ → MitCommand D → MitFrame F
  frame_to id x = record {
    can_id = id;
    kp = k.to_float x.kp;
    kd = k.to_float x.kd;
    q = k.to_float x.q;
    dq = k.to_float x.dq;
    tau = k.to_float x.tau;
  }

  -- Each motor with the command at its place.
  abbrev pub frames_for : List MotorConfig → List (MitCommand D) → List (MitFrame F)
  frames_for (m ∷ ms) (x ∷ xs) = frame_to m.can_id x ∷ frames_for ms xs
  frames_for _ _ = []

  pub send_one-found :
      (m : MotorConfig) (x : MitCommand D) (c : C) (h : H)
      → k.get_motor c m.can_id ≡ some h
      → let r = send_one k m x c in
        (r.0 ≡ ok tt) × (frames r.1 ≡ frames c ++ (frame_to (id_of h) x ∷ [])) × SameMotors c r.1
  unfolding send_one
  send_one-found m x c h e =
      rw (e, send_one)
        (
          laws.control_mit_returns h _ _ _ _ _ c m.can_id e,
          laws.control_mit_sends h _ _ _ _ _ c m.can_id e,
          laws.control_mit_keeps h _ _ _ _ _ c,
        )

  -- The loop, from any point of it.
  pub send_each_lem :
      (ms : List MotorConfig) (xs : List (MitCommand D)) (c : C)
      → All (IsRegistered c) ms
      → length xs ≡ length ms
      → let r = send_each k ms xs c in
        (r.0 ≡ ok tt) × (frames r.1 ≡ frames c ++ frames_for ms xs) × SameMotors c r.1
  unfolding send_each
  send_each_lem [] [] c a e = (refl, sym (append-nil (frames c)), λ id. refl)
  send_each_lem [] (x ∷ xs) c a e = absurd (omega arith)
  send_each_lem (m ∷ ms) [] c a e = absurd (omega arith)
  send_each_lem (m ∷ ms) (x ∷ xs) c (a, rest) e =
      let step = send_one k m x c in
      let (returned, sent, same) = send_one-found m x c a.handle a.found in
      let (returned', sent', same') =
        send_each_lem ms xs step.1 (IsRegistered-SameMotors c step.1 ms same rest) (omega arith) in
      rw (continue-of_ok (λ _. send_each k ms xs) step tt returned) (
        returned',
        sent'
            ∙ ap (λ f. f ++ frames_for ms xs)
                (sent ∙ ap (λ id. frames c ++ (frame_to id x ∷ [])) a.own)
            ∙ append_assoc (frames c) (frame_to m.can_id x ∷ []) (frames_for ms xs),
        λ id. same' id ∙ same id,
      )

  -- What a call of the backend did, where it returned: the object's new moment, and nothing else.
  pub record Sends (b : Backend C) (c : C) (sent : List (MitFrame F))
      (r : Result (Unit {0}) × Backend C) : Type 0 where
    pub after : C
    pub returned : r.0 ≡ ok tt
    pub backend : r.1 ≡ record b { control = some after }
    pub delivered : frames after ≡ frames c ++ sent
    pub same : SameMotors c after

  -- On a connected backend that finds each motor of its configuration, `send_mit_all` with one
  -- command for each motor returns, and has sent exactly the commands in order, each to the motor
  -- at its place.
  pub send_mit_all-Sends :
      (b : Backend C) (c : C) (commands : List (MitCommand D))
      → b.control ≡ some c
      → All (IsRegistered c) b.config.motors
      → length commands ≡ length b.config.motors
      → Sends b c (frames_for b.config.motors commands) (send_mit_all k commands b)
  send_mit_all-Sends b c commands e a n =
      let (returned, sent, same) = send_each_lem b.config.motors commands c a n in
      rw (send_mit_all-loop k b c commands e n) (record {
        after = (send_each k b.config.motors commands c).1;
        returned = returned;
        backend = refl;
        delivered = sent;
        same = same;
      })
