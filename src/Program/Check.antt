-- ===== src/Program/Check.antt =====
-- dm_openarm/examples/check_comm.cpp.
use dmopenarm.Base.{ℕ, zero, suc, List}
use dmopenarm.Base.Action.{Action, pure, ◌>>=◌, ◌>>◌}
use dmopenarm.Text.{Text}
use dmopenarm.Double.{Double}
use dmopenarm.Types.{ArmConfig}
use dmopenarm.Yaml.{Yaml}
use dmopenarm.Sdk.{Sdk}
use dmopenarm.Program.{
  Program, Exit, write, state_lines, connect, send_zero, read_states, sleep, disable, run_main,
  config_path,
}

module _ {D F C H : Type 0} ⦃d : Double D⦄ (k : Sdk D F C H) where
  -- One round of the loop.
  unfoldable pub check_round : ArmConfig → Action (Program D C) (Unit {0})
  check_round config = do
    send_zero k
    states ← read_states k
    write (state_lines states)
    sleep k config.loop_period

  unfoldable pub check_rounds : ℕ → ArmConfig → Action (Program D C) (Unit {0})
  check_rounds zero config = pure tt
  check_rounds (suc n) config = do check_round config; check_rounds n config

  unfoldable pub check_body : ArmConfig → Action (Program D C) (Unit {0})
  check_body config = do connect k; check_rounds 100 config; disable

  unfoldable pub check_main : {N : Type 0} → Yaml N → List Text → Exit D C
  unfolding check_body
  check_main y argv = run_main y (config_path argv) check_body
