-- ===== src/MitControl/Settling.antt =====
-- How long the targets of dm_openarm/examples/arm_mit_control.cpp take to arrive, their sums rounded as
-- Double/Rounding.antt says.
use dmopenarm.Base.{
  some, length, map, ℕ, suc, ◌+◌, ◌*◌, ◌≤◌, ◌≡◌, refl, ap, ◌∙◌, subst, true, List, [], ◌∷◌, arith,
  ok, if◌then◌else◌,
}
use dmopenarm.Base.Int.{pos}
use dmopenarm.Base.Action.{Action, ◌>>◌, continue, continue-of_ok}
use dmopenarm.Double.{Double}
use dmopenarm.Double.Rounding.{Rounding}
use dmopenarm.MitControl.Approaching.{Near, approach_target-Near, approach_target-reaches}
use dmopenarm.Text.{Text}
use dmopenarm.Types.{MotorConfig}
use dmopenarm.Sdk.{Sdk, SdkLaws}
use dmopenarm.MitControl.{MitControl, approach_all, step_of, drive, run, handle_lines, pause}
use dmopenarm.MitControl.Ready.{IsReady, drive-IsReady, pause-IsReady}
use dmopenarm.Arm

module _ {D : Type 0} ⦃d : Double D⦄ (rounding : Rounding d) where
  open rounding use {value, error}

  -- Each active target with the one requested at its place.
  abbrev pub AllNear : ℕ → ℕ → List D → List D → Type 0
  AllNear step m [] [] = Unit
  AllNear step m (a ∷ active) (t ∷ requested) =
      Near rounding step m a t × AllNear step m active requested
  AllNear step m _ _ = ⊥

  module _ (travel : ℕ) (s : D) (e : value s ≡ some (pos (travel + error))) where
    approach_all-AllNear :
        (m : ℕ) (active requested : List D)
        → error + error ≤ m
        → AllNear (travel + error) (travel + m) active requested
        → AllNear (travel + error) m (approach_all s active requested) requested
    unfolding approach_all
    approach_all-AllNear m [] [] small v = tt
    approach_all-AllNear m [] (t ∷ requested) small v = absurd v
    approach_all-AllNear m (a ∷ active) [] small v = absurd v
    approach_all-AllNear m (a ∷ active) (t ∷ requested) small (v, vs) = (
      approach_target-Near rounding travel s m a t e small v,
      approach_all-AllNear m active requested small vs,
    )

    approach_all-reaches :
        (active requested : List D)
        → AllNear (travel + error) travel active requested
        → approach_all s active requested ≡ requested
    unfolding approach_all
    approach_all-reaches [] [] v = refl
    approach_all-reaches [] (t ∷ requested) v = absurd v
    approach_all-reaches (a ∷ active) [] v = absurd v
    approach_all-reaches (a ∷ active) (t ∷ requested) (v, vs) = λ i.
        approach_target-reaches rounding travel s a t e v i
        ∷ approach_all-reaches active requested vs i

-- Rounds that read no line.
abbrev pub quiet : List ℕ → List (List Text × ℕ)
quiet rests = map (λ left. ([], left)) rests

suc_times : (n s : ℕ) → suc (suc n) * s ≡ s + suc n * s
suc_times n s = omega arith

one_times : (s : ℕ) → 1 * s ≡ s
one_times s = omega arith

at_least : (n s m : ℕ) → m ≤ s → m ≤ suc n * s
at_least n s m h = grind (arith, h)

module _ {D F C H : Type 0} ⦃d : Double D⦄ (rounding : Rounding d) (k : Sdk D F C H)
    (laws : SdkLaws k) (ms : List MotorConfig) where
  open rounding use {value, error}

  -- The program goes on, with these targets requested and this step for a round.
  record Goes (step : D) (requested : List D) (s : MitControl D C) : Type 0 where
    pub ready : IsReady k laws ms s
    pub running : s.running ≡ true
    pub wanted : s.requested_targets ≡ requested
    pub stepping : step_of s.arm.config ≡ step

  Goes-drive :
      (step : D) (requested : List D) (s : MitControl D C)
      → Goes step requested s
      → Goes step requested (drive k s).1
  unfolding drive Arm.send_mit_all
  Goes-drive step requested s v = record {
    ready = (drive-IsReady k laws ms s v.ready).1;
    running = v.running;
    wanted = v.wanted;
    stepping = v.stepping;
  }

  drive-active :
      (step : D) (requested : List D) (s : MitControl D C)
      → Goes step requested s
      → (drive k s).1.active_targets ≡ approach_all step s.active_targets requested
  unfolding drive
  drive-active step requested s v = λ i. approach_all (v.stepping i) s.active_targets (v.wanted i)

  Goes-pause :
      (left : ℕ) (step : D) (requested : List D) (s : MitControl D C)
      → Goes step requested s
      → Goes step requested (pause k left s).1
  Goes-pause left step requested s v = record {
    ready = pause-IsReady k laws ms left s v.ready;
    running = v.running;
    wanted = v.wanted;
    stepping = v.stepping;
  }

  run-quiet :
      (left : ℕ) (rounds : List (List Text × ℕ)) (s : MitControl D C)
      → (drive k s).0 ≡ ok tt
      → s.running ≡ true
      → run k (([], left) ∷ rounds) s ≡ run k rounds (pause k left (drive k s).1).1
  unfolding run handle_lines
  run-quiet left rounds s e on =
      let next : Action (MitControl D C) (Unit {0}) = pause k left >> run k rounds in
      ap (λ b. if b then continue (λ _. next) (drive k s) else (ok tt, s)) on
      ∙ continue-of_ok (λ _. next) (drive k s) tt e

  run-none : (s : MitControl D C) → (run k [] s).1.active_targets ≡ s.active_targets
  unfolding run
  run-none s = refl

  settle :
      (travel : ℕ) (step : D) (left : ℕ) (rests : List ℕ) (requested : List D) (s : MitControl D C)
      → value step ≡ some (pos (travel + error))
      → error + error ≤ travel
      → Goes step requested s
      → AllNear rounding
          (travel + error)
          (length (left ∷ rests) * travel)
          s.active_targets
          requested
      → (run k (quiet (left ∷ rests)) s).1.active_targets ≡ requested
  settle travel step left [] requested s e small v w =
      let (returned, ready) = drive-IsReady k laws ms s v.ready in
      ap (λ r. r.1.active_targets) (run-quiet left [] s returned v.running)
      ∙ run-none (pause k left (drive k s).1).1
      ∙ drive-active step requested s v
      ∙ approach_all-reaches rounding travel step e s.active_targets requested (
          subst (λ m. AllNear rounding (travel + error) m s.active_targets requested)
            (one_times travel) w)
  settle travel step left (next ∷ rests) requested s e small v w =
      let (returned, ready) = drive-IsReady k laws ms s v.ready in
      let m = length (next ∷ rests) * travel in
      rw (run-quiet left (quiet (next ∷ rests)) s returned v.running) (
        settle travel step next rests requested (pause k left (drive k s).1).1 e small
          (Goes-pause left step requested (drive k s).1 (Goes-drive step requested s v))
          (rw (drive-active step requested s v) (
            approach_all-AllNear rounding travel step e m s.active_targets requested
              (at_least (length rests) travel (error + error) small)
              (subst (λ n. AllNear rounding (travel + error) n s.active_targets requested)
                (suc_times (length rests) travel) w))))

  -- On an arm that is connected and finds its motors, while the program runs, with finite targets in the
  -- range of the rounding, and a step of at least three rounding errors: a round travels a step less a
  -- rounding error at least. When no active target is further from the one requested than some number of
  -- rounds travel, each is there exactly after these rounds, if they read no line.
  pub run-settles :
      (travel left : ℕ) (rests : List ℕ) (s : MitControl D C)
      → IsReady k laws ms s
      → s.running ≡ true
      → value (step_of s.arm.config) ≡ some (pos (travel + error))
      → error + error ≤ travel
      → AllNear rounding
          (travel + error)
          (length (left ∷ rests) * travel)
          s.active_targets
          s.requested_targets
      → (run k (quiet (left ∷ rests)) s).1.active_targets ≡ s.requested_targets
  run-settles travel left rests s ready on e small w =
      settle travel (step_of s.arm.config) left rests s.requested_targets s e small
        (record { ready = ready; running = on; wanted = refl; stepping = refl }) w
