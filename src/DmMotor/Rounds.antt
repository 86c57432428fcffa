-- ===== src/DmMotor/Rounds.antt =====
-- What the rounds of resources/DMmotor/src/main.cpp send and report.
use dmopenarm.Base.{
  ℕ, ◌≡◌, refl, sym, ap, ◌∙◌, inl, inr, Option, none, some, Option-cases, List, [], ◌∷◌, ◌++◌,
  append-nil, append_assoc, length, map, All, Result, ok, err,
}
use dmopenarm.Base.Action.{Action, continue-of_ok, ◌>>◌}
use dmopenarm.Double.{Double}
use dmopenarm.Sdk.{Sdk, SdkLaws, MitFrame, DmActData, find_act}
use dmopenarm.Backend.Delivery.{SameMotors}
use dmopenarm.Program.Running.{repeated}
use dmopenarm.DmMotor
use dmopenarm.DmMotor.{
  motor_ids, init_data, usb_serial, Written, reported, exited_safely, complained, Watch, Left,
  send_zeros, reports, round, rounds, main,
}

-- The motors that some lines report on.
abbrev pub shown : {D F : Type 0} → List (Written D F) → List ℕ
shown [] = []
shown (reported id pos vel tau interval ∷ lines) = id ∷ shown lines
shown (exited_safely ∷ lines) = shown lines
shown (complained text ∷ lines) = shown lines

shown-append : {D F : Type 0} (xs ys : List (Written D F)) → shown (xs ++ ys) ≡ shown xs ++ shown ys
shown-append [] ys = refl
shown-append (reported id pos vel tau interval ∷ xs) ys = ap (λ l. id ∷ l) (shown-append xs ys)
shown-append (exited_safely ∷ xs) ys = shown-append xs ys
shown-append (complained text ∷ xs) ys = shown-append xs ys

module _ {D F C H : Type 0} ⦃d : Double D⦄ (k : Sdk D F C H) (laws : SdkLaws k) where
  open laws use {id_of, frames}

  abbrev pub zero_frame : ℕ → MitFrame F
  zero_frame id =
      let z = DmMotor.zero k in record { can_id = id; kp = z; kd = z; q = z; dq = z; tau = z }

  abbrev into : Option H → List (MitFrame F) → List (MitFrame F)
  into none rest = rest
  into (some h) rest = zero_frame (id_of h) ∷ rest

  -- A zero frame for each of these motors that the object has.
  abbrev pub frames_found : C → List ℕ → List (MitFrame F)
  frames_found c [] = []
  frames_found c (id ∷ ids) = into (k.get_motor c id) (frames_found c ids)

  frames_found-SameMotors :
      (c c' : C) (ids : List ℕ) → SameMotors k laws c c' → frames_found c' ids ≡ frames_found c ids
  frames_found-SameMotors c c' [] same = refl
  frames_found-SameMotors c c' (id ∷ ids) same =
      rw (same id) (ap (into (k.get_motor c id)) (frames_found-SameMotors c c' ids same))

  -- Whichever of the motors the object has, the first loop of a round returns: it has sent a zero frame
  -- to each of those, in order, and the object has the same motors.
  pub send_zeros_lem :
      (ids : List ℕ) (c : C)
      → let r = send_zeros k ids c in
        (r.0 ≡ ok tt) × (frames r.1 ≡ frames c ++ frames_found c ids) × SameMotors k laws c r.1
  unfolding send_zeros
  send_zeros_lem [] c = (refl, sym (append-nil (frames c)), λ id. refl)
  send_zeros_lem (id ∷ ids) c = elim (Option-cases (k.get_motor c id)) [
    | inl e ↦ rw (e, send_zeros) (send_zeros_lem ids c)
    | inr (h, e) ↦
        let z = DmMotor.zero k in
        let step = k.control_mit h z z z z z c in
        let same = laws.control_mit_keeps h z z z z z c in
        let (returned, sent, kept) = send_zeros_lem ids step.1 in
        rw
          (
            e,
            send_zeros,
            continue-of_ok (λ _. send_zeros k ids) step tt
                (laws.control_mit_returns h z z z z z c id e),
          )
          (
            returned,
            sent
                ∙ ap (λ f. f ++ frames_found step.1 ids) (laws.control_mit_sends h z z z z z c id e)
                ∙ append_assoc (frames c) (zero_frame (id_of h) ∷ []) (frames_found step.1 ids)
                ∙ ap (λ l. frames c ++ (zero_frame (id_of h) ∷ l))
                    (frames_found-SameMotors c step.1 ids same),
            λ j. kept j ∙ same j,
          )
  ]

  -- The object finds this motor under its CAN ID, and not another one.
  abbrev pub Has : C → ℕ → Type 0
  Has c id = (h : H) × (k.get_motor c id ≡ some h) × (id_of h ≡ id)

  Has-SameMotors :
      (c c' : C) (ids : List ℕ) → SameMotors k laws c c' → All (Has c) ids → All (Has c') ids
  Has-SameMotors c c' [] same a = tt
  Has-SameMotors c c' (id ∷ ids) same ((h, e, own), rest) =
      ((h, same id ∙ e, own), Has-SameMotors c c' ids same rest)

  frames_found-Has :
      (c : C) (ids : List ℕ) → All (Has c) ids → frames_found c ids ≡ map zero_frame ids
  frames_found-Has c [] a = refl
  frames_found-Has c (id ∷ ids) ((h, e, own), rest) = rw e (
      ap (λ j. zero_frame j ∷ frames_found c ids) own
      ∙ ap (λ l. zero_frame id ∷ l) (frames_found-Has c ids rest))

  shown-reports : (c : C) (ids : List ℕ) → All (Has c) ids → shown (reports k ids c) ≡ ids
  unfolding reports
  shown-reports c [] a = refl
  shown-reports c (id ∷ ids) ((h, e, own), rest) =
      rw (e, reports) (ap (λ l. id ∷ l) (shown-reports c ids rest))

  -- While a round sleeps no motor is registered or dropped, and no frame is sent.
  pub record IsRest (rest : C → C) : Type 0 where
    pub same : (c : C) → SameMotors k laws c (rest c)
    pub quiet : (c : C) → frames (rest c) ≡ frames c

  -- What some rounds did, where they returned: the frames they sent and the motors they wrote about.
  pub record Watches (w : Watch D F C) (sent : List (MitFrame F)) (ids : List ℕ)
      (r : Result (Unit {0}) × Watch D F C) : Type 0 where
    pub returned : r.0 ≡ ok tt
    pub delivered : frames r.1.control ≡ frames w.control ++ sent
    pub reported_on : shown r.1.output ≡ shown w.output ++ ids
    pub same : SameMotors k laws w.control r.1.control

  Watches-round :
      (rest : C → C) (w : Watch D F C)
      → IsRest rest
      → All (Has w.control) motor_ids
      → Watches w (map zero_frame motor_ids) motor_ids (round k rest w)
  unfolding round
  Watches-round rest w q has =
      let (returned, sent, same) = send_zeros_lem motor_ids w.control in
      let first = DmMotor.on_control k (send_zeros k motor_ids) w in
      let next : Action (Watch D F C) (Unit {0}) =
        (λ t. DmMotor.tell k (reports k motor_ids t.control) t) >> DmMotor.wait k rest in
      rw (continue-of_ok (λ _. next) first tt returned) (record {
        returned = refl;
        delivered =
            q.quiet first.1.control
            ∙ sent
            ∙ ap (λ l. frames w.control ++ l) (frames_found-Has w.control motor_ids has);
        reported_on =
            shown-append w.output (reports k motor_ids first.1.control)
            ∙ ap (λ l. shown w.output ++ l)
                (shown-reports first.1.control motor_ids
                  (Has-SameMotors w.control first.1.control motor_ids same has));
        same = λ id. q.same first.1.control id ∙ same id;
      })

  Watches-rounds :
      (rests : List (C → C)) (w : Watch D F C)
      → All IsRest rests
      → All (Has w.control) motor_ids
      → Watches w
          (repeated (length rests) (map zero_frame motor_ids))
          (repeated (length rests) motor_ids)
          (rounds k rests w)
  unfolding rounds
  Watches-rounds [] w q has = record {
    returned = refl;
    delivered = sym (append-nil (frames w.control));
    reported_on = sym (append-nil (shown w.output));
    same = λ id. refl;
  }
  Watches-rounds (rest ∷ rests) w (q, qs) has =
      let first = Watches-round rest w q has in
      let t = (round k rest w).1 in
      let more =
        Watches-rounds rests t qs (Has-SameMotors w.control t.control motor_ids first.same has) in
      let sent = map zero_frame motor_ids in
      rw (continue-of_ok (λ _. rounds k rests) (round k rest w) tt first.returned) (record {
        returned = more.returned;
        delivered =
            more.delivered
            ∙ ap (λ l. l ++ repeated (length rests) sent) first.delivered
            ∙ append_assoc (frames w.control) sent (repeated (length rests) sent);
        reported_on =
            more.reported_on
            ∙ ap (λ l. l ++ repeated (length rests) motor_ids) first.reported_on
            ∙ append_assoc (shown w.output) motor_ids (repeated (length rests) motor_ids);
        same = λ id. more.same id ∙ first.same id;
      })

  found_each :
      (ids : List ℕ) (c : C)
      → k.construct 1_000_000 1_000_000 usb_serial init_data ≡ ok c
      → All (λ id. (a : DmActData) × (find_act init_data id ≡ some a) × (a.can_id ≡ id)) ids
      → All (Has c) ids
  found_each [] c e q = tt
  found_each (id ∷ ids) c e ((a, f, own), rest) =
      let (h, found, own') = laws.finds 1_000_000 1_000_000 usb_serial init_data c a id e f in
      ((h, found, own' ∙ own), found_each ids c e rest)

  Has-motor_ids :
      (c : C) → k.construct 1_000_000 1_000_000 usb_serial init_data ≡ ok c → All (Has c) motor_ids
  unfolding find_act
  Has-motor_ids c e = found_each motor_ids c e (
    (_, refl, refl),
    ((_, refl, refl), ((_, refl, refl), ((_, refl, refl), ((_, refl, refl), tt)))),
  )

  finish-code :
      (r : Result (Unit {0}) × Watch D F C)
      → r.0 ≡ ok tt
      → ((DmMotor.finish k r).code ≡ 0) × (shown (DmMotor.finish k r).output ≡ shown r.1.output)
  finish-code (ok _, w) e =
      (refl, shown-append w.output (exited_safely ∷ []) ∙ append-nil (shown w.output))
  finish-code (err x, w) e = absurd (cc)

  -- Where the library's constructor returns, and no motor is registered or dropped and no frame is sent
  -- while a round sleeps, the program exits with code 0 and has written about each of the five motors in
  -- each round, in order, however many rounds it makes before the interrupt.
  pub main-code :
      (rests : List (C → C)) (c : C)
      → k.construct 1_000_000 1_000_000 usb_serial init_data ≡ ok c
      → All IsRest rests
      → ((main k rests).code ≡ 0)
        × (shown (main k rests).output ≡ repeated (length rests) motor_ids)
  unfolding main
  main-code rests c e q =
      let started : Watch D F C = record { control = c; output = [] } in
      let v = Watches-rounds rests started q (Has-motor_ids c e) in
      let (code, lines) = finish-code (rounds k rests started) v.returned in
      rw e (code, lines ∙ v.reported_on)
