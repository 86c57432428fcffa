-- ===== src/MitControl/Statuses.antt =====
-- The statuses that dm_openarm/examples/arm_mit_control.cpp writes, from the start of `main` to its end.
use dmopenarm.Base.{
  ℕ, refl, Bool, true, false, List, [], ◌∷◌, All, All-append, Result, ok, err, if◌then◌else◌,
}
use dmopenarm.Text.{Text}
use dmopenarm.Double.{Double}
use dmopenarm.Types.{ArmConfig, MotorState}
use dmopenarm.Yaml.{Yaml}
use dmopenarm.Loader.{load_arm_config}
use dmopenarm.Sdk.{Sdk}
use dmopenarm.Backend.{send_mit_all, send_zero_mit_all}
use dmopenarm.Backend
use dmopenarm.Arm
use dmopenarm.Arm.{Arm}
use dmopenarm.MitControl.{MitControl, begin_at, begin_arm}
use dmopenarm.MitControl.Printed.{printed}
use dmopenarm.MitControl.InBounds.{IsPrinted, IsSound, says-IsSound}
use dmopenarm.MitControl.Indexing.{run-IsSound, IsCounted, begin_arm-IsCounted, begin_at-IsSound}
use dmopenarm.MitControl.Fifo.{Posix, FifoReader, open_fifo}
use dmopenarm.MitControl.Main.{
  Ended, signal_handler, interrupted, command_fifo, after_loop, with_fifo, with_states, with_config,
  control_main,
}

module _ {D F C H S : Type 0} ⦃d : Double D⦄ (k : Sdk D F C H) (show : D → Text)
    (os : Posix S) where
  -- All that the program wrote, it could.
  AllPrinted : Ended D C S → Type 0
  AllPrinted e = All (IsPrinted show) e.output

  signalled-IsSound :
      (on : Bool) (s : MitControl D C)
      → IsSound show s
      → IsSound show (if on then signal_handler 2 s else s)
  unfolding printed
  signalled-IsSound true s v =
      let off : MitControl D C = record s { running = false } in
      says-IsSound show off _ (_, refl)
        (record {
          one = v.one;
          targets = record {
            home = v.targets.home;
            requested = v.targets.requested;
            active = v.targets.active;
          };
          prints = v.prints;
        })
  signalled-IsSound false s v = v

  interrupted-IsSound :
      (r : Result (Unit {0}) × MitControl D C)
      → IsSound show r.1
      → IsSound show (interrupted k os r).1
  interrupted-IsSound (ok _, s) v = signalled-IsSound s.running s v
  interrupted-IsSound (err e, s) v = v

  after_loop-AllPrinted :
      (fifo : FifoReader) (system : S) (r : Result (Unit {0}) × MitControl D C)
      → IsSound show r.1
      → AllPrinted (after_loop k os fifo system r)
  unfolding after_loop printed AllPrinted
  after_loop-AllPrinted fifo system (ok _, s) v = v.prints
  after_loop-AllPrinted fifo system (err e, s) v =
      All-append (IsPrinted show) s.output _ v.prints ((_, refl), tt)

  with_fifo-AllPrinted :
      (rounds : List (List Text × ℕ)) (s : MitControl D C) (r : Result FifoReader × S)
      → IsSound show s
      → AllPrinted (with_fifo k os rounds s r)
  unfolding with_fifo printed AllPrinted
  with_fifo-AllPrinted rounds s (ok fifo, system) v =
      after_loop-AllPrinted fifo system _
        (interrupted-IsSound _ (run-IsSound k show _ _ (says-IsSound show s _ (_, refl) v)))
  with_fifo-AllPrinted rounds s (err e, system) v = ((_, refl), tt)

  with_states-AllPrinted :
      (rounds : List (List Text × ℕ)) (system : S) (r : Result (List (MotorState D)) × Arm C)
      → IsCounted k show r
      → AllPrinted (with_states k os rounds system r)
  unfolding with_states printed AllPrinted begin_at
  with_states-AllPrinted rounds system (ok ss, a) v =
      with_fifo-AllPrinted rounds _ (open_fifo os command_fifo system)
        (begin_at-IsSound k show (ok ss, a) _ v refl)
  with_states-AllPrinted rounds system (err e, a) v = ((_, refl), tt)

  with_config-AllPrinted :
      (rounds : List (List Text × ℕ)) (system : S) (r : Result ArmConfig)
      → AllPrinted (with_config k os rounds system r)
  unfolding with_config printed AllPrinted Arm.make Backend.make
  with_config-AllPrinted rounds system (ok config) =
      with_states-AllPrinted rounds system (begin_arm k config (Arm.make config))
        (begin_arm-IsCounted k show config (Arm.make config) refl)
  with_config-AllPrinted rounds system (err e) = ((_, refl), tt)

  -- Whatever its arguments, the file, the FIFO and the lines are and however it ends, the program indexes
  -- the targets within their range in every status that it writes.
  pub control_main-prints :
      {N : Type 0} (y : Yaml N) (argv : List Text) (rounds : List (List Text × ℕ)) (system : S)
      → All (IsPrinted show) (control_main k os y argv rounds system).output
  unfolding control_main printed AllPrinted
  control_main-prints y [] rounds system = ((_, refl), tt)
  control_main-prints y (program ∷ []) rounds system = ((_, refl), tt)
  control_main-prints y (program ∷ path ∷ []) rounds system =
      with_config-AllPrinted rounds system (load_arm_config y path)
  control_main-prints y (program ∷ path ∷ more ∷ rest) rounds system = ((_, refl), tt)
