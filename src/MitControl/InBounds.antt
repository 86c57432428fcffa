-- ===== src/MitControl/InBounds.antt =====
-- The indices of dm_openarm/examples/arm_mit_control.cpp: `targets[i]` and the like stand for an element.
use dmopenarm.Base.{
  ℕ, ◌≡◌, refl, sym, ap, ◌∙◌, false, some, List, [], ◌∷◌, arith, All, All-append, length,
  length-set, Result, ok, err,
}
use dmopenarm.Base.Action.{Action, continue}
use dmopenarm.Base.Outcome
use dmopenarm.Text.{Text}
use dmopenarm.Double.{Double}
use dmopenarm.Types.{MotorState}
use dmopenarm.Command.{
  MitControlCommandKind, status, move, home_one, home_all, stop, MitControlCommand, command_of,
  parse_mit_control_command,
}
use dmopenarm.Sdk.{Sdk}
use dmopenarm.Backend.Feedback.{states_iff}
use dmopenarm.Arm
use dmopenarm.Arm.{Arm}
use dmopenarm.MitControl.{
  MitControl, Output, received, max_delta, known_index, require_known_motor, motor_index,
  set_requested, report, say, obey, try_line, caught, handle_line, handle_lines,
}
use dmopenarm.MitControl.Targets.{HasTargets, length-Reports}
use dmopenarm.MitControl.Printed.{Written, print_status, printed}

module _ {D : Type 0} (show : D → Text) where
  -- It is written without an index out of range.
  abbrev pub IsPrinted : Output D → Type 0
  IsPrinted o = (w : Written) × (printed show o ≡ some w)

  print_status-counted :
      (ss : List (MotorState D)) (targets : List D)
      → length ss ≡ length targets
      → (text : Text) × (print_status show ss targets ≡ some text)
  unfolding print_status
  print_status-counted [] targets e = ([], refl)
  print_status-counted (s ∷ ss) [] e = absurd (omega arith)
  print_status-counted (s ∷ ss) (t ∷ targets) e =
      let (text, f) = print_status-counted ss targets (omega arith) in rw f (_, refl)

module _ {C : Type 0} where
  -- The arm and its backend have the same configuration.
  abbrev pub IsOne : Arm C → Type 0
  IsOne a = a.backend.config ≡ a.config

module _ {D C : Type 0} (show : D → Text) where
  -- Each motor has its targets, and all that was written could be.
  pub record IsSound (s : MitControl D C) : Type 0 where
    pub one : IsOne s.arm
    pub targets : HasTargets (length s.arm.config.motors) s
    pub prints : All (IsPrinted show) s.output

  pub says-IsSound :
      (s : MitControl D C) (o : Output D) → IsPrinted show o → IsSound s → IsSound (say o s).1
  says-IsSound s o w v = record {
    one = v.one;
    targets = record {
      home = v.targets.home;
      requested = v.targets.requested;
      active = v.targets.active;
    };
    prints = All-append (IsPrinted show) s.output (o ∷ []) v.prints (w, tt);
  }

  known-IsSound :
      (s : MitControl D C) (f : ℕ → Action (MitControl D C) (Unit {0}))
      → ((i : ℕ) → IsSound (f i s).1)
      → IsSound s
      → (r : Result ℕ) → IsSound (continue f (r, s)).1
  known-IsSound s f h v (ok i) = h i
  known-IsSound s f h v (err e) = v

  requested-IsSound :
      (s : MitControl D C) (i : ℕ) (x : D) → IsSound s → IsSound (set_requested i x s).1
  unfolding set_requested
  requested-IsSound s i x v = record {
    one = v.one;
    targets = record {
      home = v.targets.home;
      requested = length-set s.requested_targets i x ∙ v.targets.requested;
      active = v.targets.active;
    };
    prints = v.prints;
  }

module _ {D F C H : Type 0} ⦃d : Double D⦄ (k : Sdk D F C H) (show : D → Text) where
  -- Where the arm reports states, there is one for each of its motors.
  pub length-states :
      (a : Arm C) (ss : List (MotorState D))
      → a.backend.config ≡ a.config
      → Arm.states k a ≡ ok ss
      → length ss ≡ length a.config.motors
  unfolding Arm.states
  length-states a ss one e =
      let (c, _, r) = (states_iff k a.backend ss).0 e in
      length-Reports k c a.backend.config.motors ss r ∙ ap (λ g. length g.motors) one

  report-IsSound :
      (s : MitControl D C)
      → IsSound show s
      → (r : Result (List (MotorState D))) → Arm.states k s.arm ≡ r
      → IsSound show (report k r s).1
  unfolding printed
  report-IsSound s v (ok ss) e =
      let (text, f) =
        print_status-counted show ss s.requested_targets
          (length-states s.arm ss v.one e ∙ sym v.targets.requested) in
      says-IsSound show s _ (rw f (_, refl)) v
  report-IsSound s v (err x) e = v

  obey-IsSound :
      (kind : MitControlCommandKind) (can_id : ℕ) (delta : D) (s : MitControl D C)
      → IsSound show s
      → IsSound show (obey k (command_of kind can_id delta) s).1
  unfolding obey known_index printed
  obey-IsSound status can_id delta s v = report-IsSound s v (Arm.states k s.arm) refl
  obey-IsSound move can_id delta s v =
      known-IsSound show s _
        (λ i.
          says-IsSound show (set_requested i _ s).1 _ (_, refl) (requested-IsSound show s i _ v))
        v
        (Outcome.◌>>=◌ (require_known_motor can_id s.arm.config.motors)
          λ _. motor_index can_id s.arm.config.motors)
  obey-IsSound home_one can_id delta s v =
      known-IsSound show s _
        (λ i.
          says-IsSound show (set_requested i _ s).1 _ (_, refl) (requested-IsSound show s i _ v))
        v
        (Outcome.◌>>=◌ (require_known_motor can_id s.arm.config.motors)
          λ _. motor_index can_id s.arm.config.motors)
  obey-IsSound home_all can_id delta s v =
      says-IsSound show (record s { requested_targets = s.home_targets }) _ (_, refl)
        (record {
          one = v.one;
          targets = record {
            home = v.targets.home;
            requested = v.targets.home;
            active = v.targets.active;
          };
          prints = v.prints;
        })
  obey-IsSound stop can_id delta s v =
      says-IsSound show (record s { running = false }) _ (_, refl)
        (record {
          one = v.one;
          targets = record {
            home = v.targets.home;
            requested = v.targets.requested;
            active = v.targets.active;
          };
          prints = v.prints;
        })

  try_line-IsSound :
      (line : Text) (s : MitControl D C) → IsSound show s → IsSound show (try_line k line s).1
  unfolding try_line printed
  try_line-IsSound line s v = parsed (parse_mit_control_command line max_delta)
    where
      parsed :
          (r : Result (MitControlCommand D))
          → IsSound show
              (continue (λ c t. continue (λ _. obey k c) (say (received line) t)) (r, s)).1
      parsed (err x) = v
      parsed (ok c) =
          obey-IsSound c.kind c.can_id c.delta_rad (say (received line) s).1
            (says-IsSound show s (received line) (_, refl) v)

  caught-IsSound :
      (r : Result (Unit {0}) × MitControl D C) → IsSound show r.1 → IsSound show (caught k r)
  unfolding printed
  caught-IsSound (ok tt, s) v = v
  caught-IsSound (err e, s) v = says-IsSound show s _ (_, refl) v

  pub handle_lines-IsSound :
      (lines : List Text) (s : MitControl D C)
      → IsSound show s
      → IsSound show (handle_lines k lines s)
  unfolding handle_lines handle_line
  handle_lines-IsSound [] s v = v
  handle_lines-IsSound (line ∷ lines) s v =
      handle_lines-IsSound lines (handle_line k line s)
        (caught-IsSound (try_line k line s) (try_line-IsSound line s v))
