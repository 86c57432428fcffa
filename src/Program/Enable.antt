-- ===== src/Program/Enable.antt =====
-- dm_openarm/examples/enable_disable.cpp.
use dmopenarm.Base.{List}
use dmopenarm.Base.Action.{Action, ◌>>◌}
use dmopenarm.Text.{Text, codes}
use dmopenarm.Double.{Double}
use dmopenarm.Yaml.{Yaml}
use dmopenarm.Sdk.{Sdk}
use dmopenarm.Program as Shared
use dmopenarm.Program.{Program, Exit, say, connect, send_zero, sleep, disable, run_main}

-- The program's own copy of this function.
abbrev pub config_path : List Text → Text
config_path = Shared.config_path

module _ {D F C H : Type 0} ⦃d : Double D⦄ (k : Sdk D F C H) where
  unfoldable pub enable_body : Action (Program D C) (Unit {0})
  enable_body = do
    say (codes "Connecting and enabling motors")
    connect k
    send_zero k
    sleep k 1000
    say (codes "Disabling motors")
    disable

  unfoldable pub enable_main : {N : Type 0} → Yaml N → List Text → Exit D C
  unfolding enable_body
  enable_main y argv = run_main y (config_path argv) (λ _. enable_body)
