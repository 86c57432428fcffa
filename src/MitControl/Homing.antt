-- ===== src/MitControl/Homing.antt =====
-- How far a round of dm_openarm/examples/arm_mit_control.cpp moves its targets, and that `home all` brings them home, their
-- sums rounded as Double/Rounding.antt says.
use dmopenarm.Base.{
  ℕ, ◌+◌, ◌*◌, ◌≤◌, ◌≡◌, sym, ap, ◌∙◌, true, some, List, [], ◌∷◌, ◌++◌, length, ok, if◌then◌else◌,
}
use dmopenarm.Base.Int.{pos}
use dmopenarm.Base.Action.{◌>>◌}
use dmopenarm.Double.{Double}
use dmopenarm.Double.Rounding.{Rounding}
use dmopenarm.Text.{Text, codes}
use dmopenarm.Types.{MotorConfig}
use dmopenarm.Sdk.{Sdk, SdkLaws}
use dmopenarm.MitControl.{
  received, homing_all, MitControl, approach_all, step_of, drive, pause, run, handle_lines,
}
use dmopenarm.MitControl.Moving.{handle_line-home_all}
use dmopenarm.MitControl.Approaching.{MovedBy, approach_target-MovedBy}
use dmopenarm.MitControl.Ready.{IsReady}
use dmopenarm.MitControl.Settling.{AllNear, quiet, run-settles}

module _ {D : Type 0} ⦃d : Double D⦄ (rounding : Rounding d) where
  open rounding use {value, error}

  abbrev pub AllMovedBy : ℕ → List D → List D → Type 0
  AllMovedBy m [] [] = Unit
  AllMovedBy m (x ∷ from) (y ∷ to) = MovedBy rounding m x y × AllMovedBy m from to
  AllMovedBy m _ _ = ⊥

  approach_all-AllMovedBy :
      (step m : ℕ) (s : D) (active requested : List D)
      → value s ≡ some (pos step)
      → AllNear rounding step m active requested
      → AllMovedBy (step + error) active (approach_all s active requested)
  unfolding approach_all
  approach_all-AllMovedBy step m s [] [] e v = tt
  approach_all-AllMovedBy step m s [] (t ∷ requested) e v = absurd v
  approach_all-AllMovedBy step m s (a ∷ active) [] e v = absurd v
  approach_all-AllMovedBy step m s (a ∷ active) (t ∷ requested) e (v, vs) = (
    approach_target-MovedBy rounding step m s a t e v,
    approach_all-AllMovedBy step m s active requested e vs,
  )

module _ {D F C H : Type 0} ⦃d : Double D⦄ (rounding : Rounding d) (k : Sdk D F C H) where
  open rounding use {value, error}

  -- However far the active targets are from those requested, as long as both are finite and in the range
  -- of the rounding: a round moves none of them by more than the step of the velocity limit and one
  -- rounding error.
  pub drive-step :
      (step far : ℕ) (s : MitControl D C)
      → value (step_of s.arm.config) ≡ some (pos step)
      → AllNear rounding step far s.active_targets s.requested_targets
      → AllMovedBy rounding (step + error) s.active_targets (drive k s).1.active_targets
  unfolding drive
  drive-step step far s e v =
      approach_all-AllMovedBy rounding step far (step_of s.arm.config) s.active_targets
        s.requested_targets e v

  -- The first round reads these lines.
  run-lines :
      (lines : List Text) (left : ℕ) (rounds : List (List Text × ℕ)) (s : MitControl D C)
      → s.running ≡ true
      → (handle_lines k lines s).running ≡ true
      → run k ((lines, left) ∷ rounds) s ≡ run k (([], left) ∷ rounds) (handle_lines k lines s)
  unfolding run handle_lines
  run-lines lines left rounds s on on' =
      let t = handle_lines k lines s in
      let onward = (drive k >> (pause k left >> run k rounds)) t in
      ap (λ b. if b then onward else (ok tt, s)) on
      ∙ sym (ap (λ b. if b then onward else (ok tt, t)) on')

  -- On an arm that is connected and finds its motors, while the program runs, with finite targets in the
  -- range of the rounding, and a step of at least three rounding errors: when no active target is further
  -- from its home target than some number of rounds travel, each a step less a rounding error at least,
  -- the line `home all` has brought each of them home exactly after these rounds, where no other line is read.
  pub home_all-settles :
      (laws : SdkLaws k) (ms : List MotorConfig) (travel left : ℕ) (rests : List ℕ)
      (s : MitControl D C)
      → IsReady k laws ms s
      → s.running ≡ true
      → value (step_of s.arm.config) ≡ some (pos (travel + error))
      → error + error ≤ travel
      → AllNear rounding
          (travel + error)
          (length (left ∷ rests) * travel)
          s.active_targets
          s.home_targets
      → (run k ((codes "home all" ∷ [], left) ∷ quiet rests) s).1.active_targets ≡ s.home_targets
  unfolding handle_lines
  home_all-settles laws ms travel left rests s ready on stepping small near =
      let told : MitControl D C = record s {
        requested_targets = s.home_targets;
        output = (s.output ++ (received (codes "home all") ∷ [])) ++ (homing_all ∷ []);
      } in
      let answered : handle_lines k (codes "home all" ∷ []) s ≡ told = handle_line-home_all k s in
      let ready' : IsReady k laws ms told = record {
        object = ready.object;
        live = ready.live;
        targets = record {
          home = ready.targets.home;
          requested = ready.targets.home;
          active = ready.targets.active;
        };
      } in
      ap (λ r. r.1.active_targets)
        (run-lines (codes "home all" ∷ []) left (quiet rests) s on
          (ap (λ t. t.running) answered ∙ on))
      ∙ ap (λ t. (run k (([], left) ∷ quiet rests) t).1.active_targets) answered
      ∙ run-settles rounding k laws ms travel left rests told ready' on stepping small near
