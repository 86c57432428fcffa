-- ===== src/MitControl/Exits.antt =====
-- How `main` of dm_openarm/examples/arm_mit_control.cpp ends.
use dmopenarm.Base.{ℕ, refl, true, List, [], ◌∷◌, map, Result, ok, err}
use dmopenarm.Text.{Text}
use dmopenarm.Double.{Double}
use dmopenarm.Types.{ArmConfig, MotorState}
use dmopenarm.Yaml.{Yaml}
use dmopenarm.Loader.{load_arm_config}
use dmopenarm.Sdk.{Sdk}
use dmopenarm.Backend.{disconnect}
use dmopenarm.Arm
use dmopenarm.Arm.{Arm, NoConnection}
use dmopenarm.MitControl.{MitControl, begin_arm, begin_at}
use dmopenarm.MitControl.Fifo.{Posix, FifoReader, open_fifo}
use dmopenarm.MitControl.Main.{
  command_fifo, after_loop, with_fifo, with_states, with_config, control_main,
}

module _ {D F C H S : Type 0} ⦃d : Double D⦄ (k : Sdk D F C H) (os : Posix S) where
  after_loop-NoConnection :
      (fifo : FifoReader) (system : S) (r : Result (Unit {0}) × MitControl D C)
      → NoConnection (after_loop k os fifo system r).arm
  unfolding after_loop Arm.disable disconnect
  after_loop-NoConnection fifo system (ok _, s) = refl
  after_loop-NoConnection fifo system (err e, s) = refl

  with_fifo-NoConnection :
      (rounds : List (List Text × ℕ)) (s : MitControl D C) (r : Result FifoReader × S)
      → NoConnection (with_fifo k os rounds s r).arm
  unfolding with_fifo Arm.disable disconnect
  with_fifo-NoConnection rounds s (ok fifo, system) = after_loop-NoConnection fifo system _
  with_fifo-NoConnection rounds s (err e, system) = refl

  with_states-NoConnection :
      (rounds : List (List Text × ℕ)) (system : S) (r : Result (List (MotorState D)) × Arm C)
      → NoConnection (with_states k os rounds system r).arm
  unfolding with_states begin_at Arm.disable disconnect
  with_states-NoConnection rounds system (ok ss, a) =
      let positions : List D = map (λ g. g.position) ss in
      let begun : MitControl D C = record {
        arm = a;
        home_targets = positions;
        requested_targets = positions;
        active_targets = positions;
        running = true;
        output = [];
      } in
      with_fifo-NoConnection rounds begun (open_fifo os command_fifo system)
  with_states-NoConnection rounds system (err e, a) = refl

  with_config-NoConnection :
      (rounds : List (List Text × ℕ)) (system : S) (r : Result ArmConfig)
      → NoConnection (with_config k os rounds system r).arm
  unfolding with_config
  with_config-NoConnection rounds system (ok config) =
      with_states-NoConnection rounds system (begin_arm k config (Arm.make config))
  with_config-NoConnection rounds system (err e) = tt

  -- However it ends, by an error, by `stop` or by the interrupt, and whatever its arguments, the file, the
  -- FIFO and the lines are, the MIT control program leaves no connection open.
  pub control_main-NoConnection :
      {N : Type 0} (y : Yaml N) (argv : List Text) (rounds : List (List Text × ℕ)) (system : S)
      → NoConnection (control_main k os y argv rounds system).arm
  unfolding control_main
  control_main-NoConnection y [] rounds system = tt
  control_main-NoConnection y (program ∷ []) rounds system = tt
  control_main-NoConnection y (program ∷ path ∷ []) rounds system =
      with_config-NoConnection rounds system (load_arm_config y path)
  control_main-NoConnection y (program ∷ path ∷ more ∷ rest) rounds system = tt
