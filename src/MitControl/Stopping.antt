-- ===== src/MitControl/Stopping.antt =====
-- Which lines end the loop of dm_openarm/examples/arm_mit_control.cpp, and when.
use dmopenarm.Base.{
  ℕ, ◌≡◌, ◌↔◌, refl, ap, ◌∙◌, Bool, true, false, List, [], ◌∷◌, ◌++◌, Result, ok, err,
  if◌then◌else◌, arith,
}
use dmopenarm.Base.Action.{Action, continue, ◌>>◌}
use dmopenarm.Base.Outcome
use dmopenarm.Text.{Text, codes}
use dmopenarm.Text.Tokens.{split_tokens}
use dmopenarm.Double.{Double, zero_of}
use dmopenarm.Types.{MotorState}
use dmopenarm.Command.{
  MitControlCommandKind, status, move, home_one, home_all, stop, MitControlCommand, command_of,
  parse_mit_control_command,
}
use dmopenarm.Command.Grammar.{
  Accepts, says_status, says_stop, says_home_all, says_home_one, says_move,
  parse_mit_control_command_iff,
}
use dmopenarm.Sdk.{Sdk}
use dmopenarm.Arm
use dmopenarm.MitControl.{
  MitControl, received, max_delta, known_index, require_known_motor, motor_index, set_requested,
  report, say, obey, try_line, caught, handle_line, handle_lines, drive, pause, run,
}

is_stop : MitControlCommandKind → Bool
is_stop stop = true
is_stop status = false
is_stop move = false
is_stop home_one = false
is_stop home_all = false

module _ {D F C H : Type 0} ⦃d : Double D⦄ (k : Sdk D F C H) where
  known-running :
      (s : MitControl D C) (f : ℕ → Action (MitControl D C) (Unit {0}))
      → ((i : ℕ) → (f i s).1.running ≡ s.running)
      → (r : Result ℕ) → (continue f (r, s)).1.running ≡ s.running
  known-running s f h (ok i) = h i
  known-running s f h (err e) = refl

  report-running :
      (s : MitControl D C) (r : Result (List (MotorState D))) → (report k r s).1.running ≡ s.running
  report-running s (ok ss) = refl
  report-running s (err e) = refl

  obey-running :
      (kind : MitControlCommandKind) (can_id : ℕ) (delta : D) (s : MitControl D C)
      → (obey k (command_of kind can_id delta) s).1.running
        ≡ (if is_stop kind then false else s.running)
  unfolding obey known_index set_requested is_stop
  obey-running status can_id delta s = report-running s (Arm.states k s.arm)
  obey-running move can_id delta s =
      known-running s _ (λ i. refl)
        (Outcome.◌>>=◌ (require_known_motor can_id s.arm.config.motors)
          λ _. motor_index can_id s.arm.config.motors)
  obey-running home_one can_id delta s =
      known-running s _ (λ i. refl)
        (Outcome.◌>>=◌ (require_known_motor can_id s.arm.config.motors)
          λ _. motor_index can_id s.arm.config.motors)
  obey-running home_all can_id delta s = refl
  obey-running stop can_id delta s = refl

  -- Whether a line that was read so is `stop`.
  stops : Result (MitControlCommand D) → Bool
  unfolding is_stop
  stops (ok c) = is_stop c.kind
  stops (err e) = false

  try_line-running :
      (line : Text) (s : MitControl D C)
      → (try_line k line s).1.running
        ≡ (if stops (parse_mit_control_command line max_delta) then false else s.running)
  unfolding try_line stops
  try_line-running line s = parsed (parse_mit_control_command line max_delta)
    where
      parsed :
          (r : Result (MitControlCommand D))
          → (continue (λ c t. continue (λ _. obey k c) (say (received line) t)) (r, s)).1.running
            ≡ (if stops r then false else s.running)
      parsed (err x) = refl
      parsed (ok c) =
          obey-running c.kind c.can_id c.delta_rad
            (record s { output = s.output ++ (received line ∷ []) })

  caught-running : (r : Result (Unit {0}) × MitControl D C) → (caught k r).running ≡ r.1.running
  caught-running (ok tt, t) = refl
  caught-running (err e, t) = refl

  handle_line-running :
      (line : Text) (s : MitControl D C)
      → (handle_line k line s).running
        ≡ (if stops (parse_mit_control_command line max_delta) then false else s.running)
  unfolding handle_line
  handle_line-running line s = caught-running (try_line k line s) ∙ try_line-running line s

  stops-of_tokens :
      (line : Text)
      → split_tokens line ≡ codes "stop" ∷ []
      → stops (parse_mit_control_command line max_delta) ≡ true
  unfolding stops
  stops-of_tokens line e = ap stops (
      (parse_mit_control_command_iff line max_delta (command_of stop 0 (zero_of d))).1
        (says_stop e refl))

  tokens-of_stops :
      (line : Text)
      → stops (parse_mit_control_command line max_delta) ≡ true
      → split_tokens line ≡ codes "stop" ∷ []
  unfolding stops is_stop
  tokens-of_stops line = read (parse_mit_control_command line max_delta) refl
    where
      other_kind :
          (c c' : MitControlCommand D)
          → c ≡ c'
          → is_stop c'.kind ≡ false
          → is_stop c.kind ≡ true
          → ⊥
      other_kind c c' f e h = absurd (cc (ap (λ x. is_stop x.kind) f, e, h))

      accepted :
          (c : MitControlCommand D)
          → Accepts max_delta (split_tokens line) c
          → is_stop c.kind ≡ true
          → split_tokens line ≡ codes "stop" ∷ []
      accepted c (says_stop e f) h = e
      accepted c (says_status e f) h = absurd (other_kind c _ f refl h)
      accepted c (says_home_all e f) h = absurd (other_kind c _ f refl h)
      accepted c (says_home_one id n e ne i f) h = absurd (other_kind c _ f refl h)
      accepted c (says_move id delta n x e i l f) h = absurd (other_kind c _ f refl h)

      read :
          (r : Result (MitControlCommand D))
          → parse_mit_control_command line max_delta ≡ r
          → stops r ≡ true
          → split_tokens line ≡ codes "stop" ∷ []
      read (err x) e h = absurd (cc)
      read (ok c) e h = accepted c ((parse_mit_control_command_iff line max_delta c).0 e) h

  -- While the program runs, a line ends it exactly where its one word is `stop`.
  pub handle_line-stops_iff :
      (line : Text) (s : MitControl D C)
      → s.running ≡ true
      → ((handle_line k line s).running ≡ false) ↔ (split_tokens line ≡ codes "stop" ∷ [])
  handle_line-stops_iff line s on = (
    λ e. tokens-of_stops line (ground (arith, handle_line-running line s, e, on)),
    λ e. ground (arith, handle_line-running line s, stops-of_tokens line e),
  )

  off_line :
      (line : Text) (s : MitControl D C)
      → s.running ≡ false
      → (handle_line k line s).running ≡ false
  off_line line s off = ground (arith, handle_line-running line s, off)

  off_lines :
      (lines : List Text) (s : MitControl D C)
      → s.running ≡ false
      → (handle_lines k lines s).running ≡ false
  unfolding handle_lines
  off_lines [] s off = off
  off_lines (line ∷ lines) s off = off_lines lines (handle_line k line s) (off_line line s off)

  stop_lines :
      (before : List Text) (line : Text) (after : List Text) (s : MitControl D C)
      → split_tokens line ≡ codes "stop" ∷ []
      → (handle_lines k (before ++ line ∷ after) s).running ≡ false
  unfolding handle_lines
  stop_lines [] line after s e =
      off_lines after (handle_line k line s)
        (ground (arith, handle_line-running line s, stops-of_tokens line e))
  stop_lines (x ∷ before) line after s e = stop_lines before line after (handle_line k x s) e

  run-off :
      (rounds : List (List Text × ℕ)) (s : MitControl D C)
      → s.running ≡ false
      → run k rounds s ≡ (ok tt, s)
  unfolding run
  run-off [] s off = refl
  run-off ((lines, left) ∷ rounds) s off =
      let on = (drive k >> (pause k left >> run k rounds)) (handle_lines k lines s) in
      ap (λ b. if b then on else (ok tt, s)) off

  onward :
      (left : ℕ) (rounds : List (List Text × ℕ)) (r : Result (Unit {0}) × MitControl D C)
      → r.1.running ≡ false
      → continue (λ _. pause k left >> run k rounds) r ≡ continue (λ _. pause k left >> run k []) r
  unfolding run
  onward left rounds (ok tt, t) off = run-off rounds (pause k left t).1 off
  onward left rounds (err e, t) off = refl

  -- Of the rounds behind one that reads the line `stop`, among whatever lines, none takes place: with them
  -- the program returns, throws, sends and writes what it does without them.
  pub run-stops :
      (before : List Text) (line : Text) (after : List Text) (left : ℕ)
      (rounds : List (List Text × ℕ)) (s : MitControl D C)
      → split_tokens line ≡ codes "stop" ∷ []
      → run k ((before ++ line ∷ after, left) ∷ rounds) s
        ≡ run k ((before ++ line ∷ after, left) ∷ []) s
  unfolding run drive
  run-stops before line after left rounds s e =
      let t = handle_lines k (before ++ line ∷ after) s in
      ap (λ r. if s.running then r else (ok tt, s))
        (onward left rounds (drive k t) (stop_lines before line after s e))
