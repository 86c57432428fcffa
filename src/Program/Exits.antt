-- ===== src/Program/Exits.antt =====
-- How the programs under dm_openarm/examples let go of their arm.
use dmopenarm.Base.{ℕ, ◌≡◌, refl, Bool, none, List, Result, ok, err}
use dmopenarm.Base.Action.{Action, continue, ◌>>=◌, ◌>>◌}
use dmopenarm.Text.{Text, codes}
use dmopenarm.Double.{Double}
use dmopenarm.Types.{ArmConfig, MotorState}
use dmopenarm.Sdk.{Sdk}
use dmopenarm.Backend.{disconnect}
use dmopenarm.Arm
use dmopenarm.Program.{Program, connect, send_zero, read_states, sleep, say, write, disable}
use dmopenarm.Program.Enable.{enable_body}
use dmopenarm.Program.Check.{check_rounds, check_body}
use dmopenarm.Program.Hold.{signal_handler, hold_commands, hold_rounds, hold_body}
use dmopenarm.Program.SetZero.{target_ids, after_lines, zero_targets, zero_body}

module _ {D C : Type 0} where
  -- Where it returned, the arm is not connected any more.
  abbrev pub LetsGo : Result (Unit {0}) × Program D C → Type 0
  LetsGo (ok _, p) = p.arm.backend.control ≡ none
  LetsGo (err e, p) = Unit

  abbrev AlwaysLetsGo : Action (Program D C) (Unit {0}) → Type 0
  AlwaysLetsGo act = (p : Program D C) → LetsGo (act p)

  then-LetsGo :
      {A : Type 0} (next : A → Action (Program D C) (Unit {0})) (r : Result A × Program D C)
      → ((a : A) → AlwaysLetsGo (next a))
      → LetsGo (continue next r)
  then-LetsGo next (ok a, p) q = q a p
  then-LetsGo next (err e, p) q = tt

  disable-LetsGo : AlwaysLetsGo disable
  unfolding Arm.disable disconnect
  disable-LetsGo p = refl

module _ {D F C H : Type 0} ⦃d : Double D⦄ (k : Sdk D F C H) where
  enable_body-LetsGo : AlwaysLetsGo {D = D} {C = C} (enable_body k)
  unfolding enable_body
  enable_body-LetsGo p =
      let p' = (say (codes "Connecting and enabling motors") p).1 in
      let last : Action (Program D C) (Unit {0}) = say (codes "Disabling motors") >> disable in
      let resting : Action (Program D C) (Unit {0}) = sleep k 1000 >> last in
      then-LetsGo (λ _. send_zero k >> resting) (connect k p')
        λ _ q.
          then-LetsGo (λ _. resting) (send_zero k q)
            λ _ u. disable-LetsGo (say (codes "Disabling motors") (sleep k 1000 u).1).1

  check_body-LetsGo : (config : ArmConfig) → AlwaysLetsGo {D = D} {C = C} (check_body k config)
  unfolding check_body
  check_body-LetsGo config p =
      then-LetsGo (λ _. check_rounds k 100 config >> disable) (connect k p)
        λ _ q. then-LetsGo (λ _. disable) (check_rounds k 100 config q) λ _. disable-LetsGo

  hold_body-LetsGo :
      (rounds : List ℕ) (config : ArmConfig)
      → AlwaysLetsGo {D = D} {C = C} (hold_body k rounds config)
  unfolding hold_body
  hold_body-LetsGo rounds config p =
      let holding : List (MotorState D) → Action (Program D C) (Unit {0}) =
        λ ss. hold_rounds k rounds (hold_commands ss) >> (signal_handler 2 >> disable) in
      let resting : Action (Program D C) (Unit {0}) =
        sleep k config.loop_period >> (read_states k >>= holding) in
      then-LetsGo (λ _. send_zero k >> resting) (connect k p)
        λ _ q.
          then-LetsGo (λ _. resting) (send_zero k q)
            λ _ u. then-LetsGo holding (read_states k (sleep k config.loop_period u).1) λ ss v.
              then-LetsGo (λ _. signal_handler 2 >> disable)
                (hold_rounds k rounds (hold_commands ss) v)
                λ _ w. disable-LetsGo (signal_handler 2 w).1

  zero_body-LetsGo :
      (target : Text) (persist : Bool) (config : ArmConfig)
      → AlwaysLetsGo {D = D} {C = C} (zero_body k target persist config)
  unfolding zero_body
  zero_body-LetsGo target persist config p =
      let writing : List ℕ → List (MotorState D) → Action (Program D C) (Unit {0}) =
        λ ids ss. write (after_lines ss ids) >> disable in
      let ending : List ℕ → Action (Program D C) (Unit {0}) =
        λ ids. sleep k config.loop_period >> (read_states k >>= writing ids) in
      let zeroing : List (MotorState D) → List ℕ → Action (Program D C) (Unit {0}) =
        λ before ids. zero_targets k persist before ids >> (send_zero k >> ending ids) in
      let naming : List (MotorState D) → Action (Program D C) (Unit {0}) =
        λ before. (λ q. (target_ids target config, q)) >>= zeroing before in
      let resting : Action (Program D C) (Unit {0}) =
        sleep k config.loop_period >> (read_states k >>= naming) in
      then-LetsGo (λ _. send_zero k >> resting) (connect k p)
        λ _ q.
          then-LetsGo (λ _. resting) (send_zero k q)
            λ _ u. then-LetsGo naming (read_states k (sleep k config.loop_period u).1) λ before v.
              then-LetsGo (zeroing before) (target_ids target config, v)
                λ ids w.
                  then-LetsGo (λ _. send_zero k >> ending ids) (zero_targets k persist before ids w)
                    λ _ x.
                      then-LetsGo (λ _. ending ids) (send_zero k x)
                        λ _ y.
                          then-LetsGo (writing ids) (read_states k (sleep k config.loop_period y).1)
                            λ ss z. disable-LetsGo (write (after_lines ss ids) z).1

  -- Each of the four programs, where the body of its `try` returns, has disconnected its arm before the
  -- destructor of the arm runs, whatever configuration, target and rounds it had.
  pub bodies-LetsGo :
      (target : Text) (persist : Bool) (rounds : List ℕ) (config : ArmConfig) (p : Program D C)
      → LetsGo (enable_body k p)
        × LetsGo (check_body k config p)
        × LetsGo (hold_body k rounds config p)
        × LetsGo (zero_body k target persist config p)
  bodies-LetsGo target persist rounds config p = (
    enable_body-LetsGo p,
    check_body-LetsGo config p,
    hold_body-LetsGo rounds config p,
    zero_body-LetsGo target persist config p,
  )
