-- ===== src/MitControl/Handling.antt =====
-- What the lines that dm_openarm/examples/arm_mit_control.cpp reads do to its targets.
use dmopenarm.Base.{
  ℕ, ◌≡◌, refl, sym, ap, ◌∙◌, List, [], ◌∷◌, ◌++◌, length, length-set, Exception, Result, ok, err,
}
use dmopenarm.Base.Outcome.{what}
use dmopenarm.Base.Outcome
use dmopenarm.Base.Action.{Action, continue}
use dmopenarm.Text.{Text}
use dmopenarm.Double.{Double}
use dmopenarm.Types.{MotorState}
use dmopenarm.Command.{
  MitControlCommandKind, status, move, home_one, home_all, stop, MitControlCommand, command_of,
  parse_mit_control_command,
}
use dmopenarm.Sdk.{Sdk}
use dmopenarm.Arm
use dmopenarm.MitControl.{
  Output, received, rejected, MitControl, max_delta, known_index, require_known_motor, motor_index,
  set_requested, say, report, obey, try_line, caught, handle_line, handle_lines,
}

module _ {D C : Type 0} where
  -- The requested targets and the flag may differ, and more has been written; nothing else differs.
  pub record Handles (s t : MitControl D C) : Type 0 where
    pub arm : t.arm ≡ s.arm
    pub home : t.home_targets ≡ s.home_targets
    pub active : t.active_targets ≡ s.active_targets
    pub count :
        length s.home_targets ≡ length s.requested_targets
        → length t.requested_targets ≡ length s.requested_targets

  -- Only more has been written.
  abbrev pub OnlySays : MitControl D C → MitControl D C → Type 0
  OnlySays s t = (out : List (Output D)) × (t ≡ record s { output = out })

  -- What a method leaves, and where it throws.
  pub record IsLine (s : MitControl D C) (r : Result (Unit {0}) × MitControl D C) : Type 0 where
    pub handles : Handles s r.1
    pub thrown : (e : Exception) → r.0 ≡ err e → OnlySays s r.1

module _ {D F C H : Type 0} ⦃d : Double D⦄ (k : Sdk D F C H) where
  known :
      (s : MitControl D C) (can_id : ℕ) (f : ℕ → Action (MitControl D C) (Unit {0}))
      → ((i : ℕ) → IsLine s (f i s))
      → (r : Result ℕ) → IsLine s (continue f (r, s))
  known s can_id f h (ok i) = h i
  known s can_id f h (err e) = record {
    handles = record { arm = refl; home = refl; active = refl; count = λ _. refl };
    thrown = λ _ _. (s.output, refl);
  }

  report-IsLine : (s : MitControl D C) (r : Result (List (MotorState D))) → IsLine s (report k r s)
  report-IsLine s (ok ss) = record {
    handles = record { arm = refl; home = refl; active = refl; count = λ _. refl };
    thrown = λ e h. absurd (cc);
  }
  report-IsLine s (err x) = record {
    handles = record { arm = refl; home = refl; active = refl; count = λ _. refl };
    thrown = λ e h. (s.output, refl);
  }

  obey-IsLine :
      (kind : MitControlCommandKind) (can_id : ℕ) (delta : D) (s : MitControl D C)
      → IsLine s (obey k (command_of kind can_id delta) s)
  unfolding obey known_index set_requested
  obey-IsLine status can_id delta s = report-IsLine s (Arm.states k s.arm)
  obey-IsLine move can_id delta s =
      known s can_id _
        (λ i. record {
          handles = record {
            arm = refl;
            home = refl;
            active = refl;
            count = λ _. length-set s.requested_targets i _;
          };
          thrown = λ e h. absurd (cc);
        })
        (Outcome.◌>>=◌ (require_known_motor can_id s.arm.config.motors)
          λ _. motor_index can_id s.arm.config.motors)
  obey-IsLine home_one can_id delta s =
      known s can_id _
        (λ i. record {
          handles = record {
            arm = refl;
            home = refl;
            active = refl;
            count = λ _. length-set s.requested_targets i _;
          };
          thrown = λ e h. absurd (cc);
        })
        (Outcome.◌>>=◌ (require_known_motor can_id s.arm.config.motors)
          λ _. motor_index can_id s.arm.config.motors)
  obey-IsLine home_all can_id delta s = record {
    handles = record { arm = refl; home = refl; active = refl; count = λ n. n };
    thrown = λ e h. absurd (cc);
  }
  obey-IsLine stop can_id delta s = record {
    handles = record { arm = refl; home = refl; active = refl; count = λ _. refl };
    thrown = λ e h. absurd (cc);
  }

  try_line-IsLine : (line : Text) (s : MitControl D C) → IsLine s (try_line k line s)
  unfolding try_line
  try_line-IsLine line s = parsed (parse_mit_control_command line max_delta)
    where
      parsed :
          (r : Result (MitControlCommand D))
          → IsLine s (continue (λ c t. continue (λ _. obey k c) (say (received line) t)) (r, s))
      parsed (err x) = record {
        handles = record { arm = refl; home = refl; active = refl; count = λ _. refl };
        thrown = λ e h. (s.output, refl);
      }
      parsed (ok c) =
          let told = record s { output = s.output ++ (received line ∷ []) } in
          let v = obey-IsLine c.kind c.can_id c.delta_rad told in
          record {
            handles = record {
              arm = v.handles.arm;
              home = v.handles.home;
              active = v.handles.active;
              count = v.handles.count;
            };
            thrown = v.thrown;
          }

  Handles-caught :
      (s : MitControl D C) (r : Result (Unit {0}) × MitControl D C)
      → Handles s r.1
      → Handles s (caught k r)
  Handles-caught s (ok tt, t) v = v
  Handles-caught s (err e, t) v = record {
    arm = v.arm;
    home = v.home;
    active = v.active;
    count = v.count;
  }

  pub handle_lines-Handles :
      (lines : List Text) (s : MitControl D C) → Handles s (handle_lines k lines s)
  unfolding handle_lines handle_line
  handle_lines-Handles [] s = record { arm = refl; home = refl; active = refl; count = λ _. refl }
  handle_lines-Handles (line ∷ lines) s =
      let v = Handles-caught s (try_line k line s) (try_line-IsLine line s).handles in
      let w = handle_lines-Handles lines (handle_line k line s) in
      record {
        arm = w.arm ∙ v.arm;
        home = w.home ∙ v.home;
        active = w.active ∙ v.active;
        count = λ n. w.count (ap length v.home ∙ n ∙ sym (v.count n)) ∙ v.count n;
      }

  caught-says :
      (s : MitControl D C) (e : Exception) (r : Result (Unit {0}) × MitControl D C)
      → r.0 ≡ err e
      → OnlySays s r.1
      → OnlySays s (caught k r)
  caught-says s e (ok _, t) h v = absurd (cc)
  caught-says s e (err x, t) h (out, same) =
      (out ++ (rejected (what x) ∷ []), ap (λ u. caught k (err x, u)) same)

  -- A line that is rejected, because it is no command, names no motor or asks for states that cannot be
  -- had, changes nothing but what the program has written.
  pub handle_line-rejected :
      (line : Text) (s : MitControl D C) (e : Exception)
      → (try_line k line s).0 ≡ err e
      → (out : List (Output D)) × (handle_line k line s ≡ record s { output = out })
  unfolding handle_line
  handle_line-rejected line s e h =
      caught-says s e (try_line k line s) h ((try_line-IsLine line s).thrown e h)
