-- ===== src/Program/Zeroing.antt =====
-- What dm_openarm/examples/set_zero_position.cpp tells the motors, on an arm that is connected and finds them.
use dmopenarm.Base.{ℕ, ◌≡◌, refl, ap, ◌∙◌, Bool, some, List, [], ◌∷◌, ◌++◌, All, Result, ok}
use dmopenarm.Base.Action.{Action, continue-of_ok, ◌>>◌}
use dmopenarm.Text.{codes}
use dmopenarm.Text.Print.{to_string}
use dmopenarm.Double.{Double}
use dmopenarm.Types.{MotorState}
use dmopenarm.Sdk.{Sdk, SdkLaws}
use dmopenarm.Sdk.Zeroing.{Told, zeroes_one, ZeroLaws}
use dmopenarm.Backend.{Backend}
use dmopenarm.Backend.Delivery.{SameMotors}
use dmopenarm.Backend.Zeroing.{saves_if, set_zero-Tells}
use dmopenarm.Arm
use dmopenarm.Program.{Program, says, set_zero, say}
use dmopenarm.Program.SetZero.{target_lines, saved_words, zero_target, zero_targets}

-- Each of these motors is told, in order.
abbrev pub tells_each : Bool → List ℕ → Told → Told
tells_each persist [] t = t
tells_each persist (id ∷ ids) t = tells_each persist ids (saves_if persist id (zeroes_one id t))

module _ {D F C H : Type 0} ⦃d : Double D⦄ (k : Sdk D F C H) (laws : SdkLaws k)
    (zero : ZeroLaws laws) where
  open zero use {told}

  -- The object finds this motor under its CAN ID, and not another one.
  abbrev pub Finds : C → ℕ → Type 0
  Finds c id = (h : H) × (k.get_motor c id ≡ some h) × (laws.id_of h ≡ id)

  Finds-SameMotors :
      (c c' : C) (ids : List ℕ) → SameMotors k laws c c' → All (Finds c) ids → All (Finds c') ids
  Finds-SameMotors c c' [] same a = tt
  Finds-SameMotors c c' (id ∷ ids) same ((h, e, own), rest) =
      ((h, same id ∙ e, own), Finds-SameMotors c c' ids same rest)

  -- A part of the program that returned, told the motors this much and sent no MIT frame.
  pub record Zeroes (p : Program D C) (c : C) (t : Told) (r : Result (Unit {0}) × Program D C)
      : Type 0 where
    pub after : C
    pub returned : r.0 ≡ ok tt
    pub backend : r.1.arm.backend ≡ record p.arm.backend { control = some after }
    pub told_then : told after ≡ t
    pub quiet : laws.frames after ≡ laws.frames c
    pub same : SameMotors k laws c after

  Zeroes-target :
      (persist : Bool) (before : List (MotorState D)) (id : ℕ) (p : Program D C) (c : C)
      → p.arm.backend.control ≡ some c
      → Finds c id
      → Zeroes p c
          (saves_if persist id (zeroes_one id (told c)))
          (zero_target k persist before id p)
  unfolding zero_target Arm.set_zero
  Zeroes-target persist before id p c up (h, e, own) =
      let (after, done, told_then, quiet, same) =
        set_zero-Tells k laws zero persist h p.arm.backend c id up e in
      let q : Program D C = record {
        arm = p.arm;
        output =
            (p.output
              ++ (says (codes "Target motor CAN ID: " ++ to_string id) ∷ [])
              ++ target_lines (codes "Before set zero:") before id)
            ++ (says (codes "Sending set zero command") ∷ []);
      } in
      let first = set_zero k id persist q in
      let last : Action (Program D C) (Unit {0}) =
        say (codes "Sent set zero command") >> say (saved_words persist) in
      rw (continue-of_ok (λ _. last) first tt (ap (λ r. r.0) done)) (record {
        after = after;
        returned = refl;
        backend = ap (λ r. r.1) done;
        told_then = told_then ∙ ap (λ i. saves_if persist i (zeroes_one i (told c))) own;
        quiet = quiet;
        same = same;
      })

  -- From a moment at which the arm is connected and finds these motors, the loop of set_zero_position.cpp
  -- over their CAN IDs returns: it has told each of them, in order, to set its zero position, and to write
  -- its flash where this is wanted, and has sent no motor a command.
  pub zero_targets-Zeroes :
      (persist : Bool) (before : List (MotorState D)) (ids : List ℕ) (p : Program D C) (c : C)
      → p.arm.backend.control ≡ some c
      → All (Finds c) ids
      → Zeroes p c (tells_each persist ids (told c)) (zero_targets k persist before ids p)
  unfolding zero_targets
  zero_targets-Zeroes persist before [] p c up found = record {
    after = c;
    returned = refl;
    backend = ap (λ o. record p.arm.backend { control = o }) up;
    told_then = refl;
    quiet = refl;
    same = λ id. refl;
  }
  zero_targets-Zeroes persist before (id ∷ ids) p c up (find, found) =
      let first = Zeroes-target persist before id p c up find in
      let r = zero_target k persist before id p in
      let rest =
        zero_targets-Zeroes persist before ids r.1 first.after (ap (λ b. b.control) first.backend)
          (Finds-SameMotors c first.after ids first.same found) in
      rw (continue-of_ok (λ _. zero_targets k persist before ids) r tt first.returned) (record {
        after = rest.after;
        returned = rest.returned;
        backend =
            rest.backend
            ∙ ap (λ (b : Backend C). record b { control = some rest.after }) first.backend;
        told_then = rest.told_then ∙ ap (tells_each persist ids) first.told_then;
        quiet = rest.quiet ∙ first.quiet;
        same = λ j. rest.same j ∙ first.same j;
      })
