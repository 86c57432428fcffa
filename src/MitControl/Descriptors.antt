-- ===== src/MitControl/Descriptors.antt =====
-- The descriptors that `main` of dm_openarm/examples/arm_mit_control.cpp opens and closes.
use dmopenarm.Base.{
  ℕ, ◌≡◌, refl, sym, ap, ◌∙◌, ◌++◌, append_assoc, Bool, true, false, Option, none, some, List, [],
  ◌∷◌, map, Result, ok, err,
}
use dmopenarm.Text.{Text}
use dmopenarm.Double.{Double}
use dmopenarm.Types.{ArmConfig, MotorState}
use dmopenarm.Yaml.{Yaml}
use dmopenarm.Loader.{load_arm_config}
use dmopenarm.Sdk.{Sdk}
use dmopenarm.Arm
use dmopenarm.Arm.{Arm}
use dmopenarm.MitControl.{MitControl, begin_arm, begin_at}
use dmopenarm.MitControl.Fifo
use dmopenarm.MitControl.Fifo.{Posix, FifoReader, open_fifo, close_fifo, close_if_open}
use dmopenarm.MitControl.Main.{
  command_fifo, after_loop, with_fifo, with_states, with_config, control_main,
}

-- One descriptor, if there is one.
abbrev pub list_of : Option ℕ → List ℕ
list_of none = []
list_of (some fd) = fd ∷ []

-- The documented accounting of the calls, with a reading of which descriptors are open, the newest first.
-- Nothing is said of a `close` of a number that is not open, or not the newest.
pub record PosixLaws {S : Type 0} (os : Posix S) : Type 0 where
  pub opened : S → List ℕ
  pub unlink_opens : (path : Text) (s : S) → opened (os.unlink path s) ≡ opened s
  pub mkfifo_opens : (path : Text) (s : S) → opened (os.mkfifo path s).1 ≡ opened s
  pub read_opens :
      (path : Text) (s : S)
      → opened (os.open_read path s).1 ≡ list_of (os.open_read path s).0 ++ opened s
  pub write_opens :
      (path : Text) (s : S)
      → opened (os.open_write path s).1 ≡ list_of (os.open_write path s).0 ++ opened s
  pub close_opens :
      (fd : ℕ) (s : S) (fds : List ℕ) → opened s ≡ fd ∷ fds → opened (os.close fd s) ≡ fds

module _ {S : Type 0} (os : Posix S) (laws : PosixLaws os) where
  open laws use {opened}

  -- The descriptors that a reader owns.
  abbrev owned : FifoReader → List ℕ
  owned fifo = list_of fifo.keepalive_fd ++ list_of fifo.read_fd

  abbrev taken : Result FifoReader → List ℕ
  taken (ok fifo) = owned fifo
  taken (err e) = []

  opened_read-opened :
      (path : Text) (r : Option ℕ × S) (n : List ℕ)
      → opened r.1 ≡ list_of r.0 ++ n
      → opened (Fifo.opened_read os path r).1 ≡ taken (Fifo.opened_read os path r).0 ++ n
  unfolding Fifo.opened_read
  opened_read-opened path (none, s) n e = e
  opened_read-opened path (some fd, s) n e =
      laws.write_opens path s
      ∙ ap (λ fds. list_of (os.open_write path s).0 ++ fds) e
      ∙ sym (append_assoc (list_of (os.open_write path s).0) (fd ∷ []) n)

  made-opened :
      (path : Text) (r : Bool × S) (n : List ℕ)
      → opened r.1 ≡ n
      → opened (Fifo.made os path r).1 ≡ taken (Fifo.made os path r).0 ++ n
  unfolding Fifo.made
  made-opened path (false, s) n e = e
  made-opened path (true, s) n e =
      opened_read-opened path (os.open_read path s) n
        (laws.read_opens path s ∙ ap (λ fds. list_of (os.open_read path s).0 ++ fds) e)

  open_fifo-opened :
      (path : Text) (s : S)
      → opened (open_fifo os path s).1 ≡ taken (open_fifo os path s).0 ++ opened s
  unfolding open_fifo
  open_fifo-opened path s =
      made-opened path (os.mkfifo path (os.unlink path s)) (opened s)
        (laws.mkfifo_opens path (os.unlink path s) ∙ laws.unlink_opens path s)

  close_if_open-opened :
      (fd : Option ℕ) (s : S) (n : List ℕ)
      → opened s ≡ list_of fd ++ n
      → opened (close_if_open os fd s) ≡ n
  close_if_open-opened none s n e = e
  close_if_open-opened (some fd) s n e = laws.close_opens fd s n e

  close_fifo-opened :
      (fifo : FifoReader) (s : S) (n : List ℕ)
      → opened s ≡ owned fifo ++ n
      → opened (close_fifo os fifo s) ≡ n
  unfolding close_fifo
  close_fifo-opened fifo s n e =
      laws.unlink_opens fifo.path _
      ∙ close_if_open-opened fifo.read_fd (close_if_open os fifo.keepalive_fd s) n (
          close_if_open-opened fifo.keepalive_fd s (list_of fifo.read_fd ++ n)
            (e ∙ append_assoc (list_of fifo.keepalive_fd) (list_of fifo.read_fd) n))

  module _ {D F C H : Type 0} ⦃d : Double D⦄ (k : Sdk D F C H) where
    after_loop-opened :
        (fifo : FifoReader) (system : S) (r : Result (Unit {0}) × MitControl D C) (n : List ℕ)
        → opened system ≡ owned fifo ++ n
        → opened (after_loop k os fifo system r).system ≡ n
    unfolding after_loop
    after_loop-opened fifo system (ok _, s) n e = close_fifo-opened fifo system n e
    after_loop-opened fifo system (err x, s) n e = close_fifo-opened fifo system n e

    with_fifo-opened :
        (rounds : List (List Text × ℕ)) (s : MitControl D C) (r : Result FifoReader × S)
        (n : List ℕ)
        → opened r.1 ≡ taken r.0 ++ n
        → opened (with_fifo k os rounds s r).system ≡ n
    unfolding with_fifo
    with_fifo-opened rounds s (ok fifo, system) n e = after_loop-opened fifo system _ n e
    with_fifo-opened rounds s (err x, system) n e = e

    with_states-opened :
        (rounds : List (List Text × ℕ)) (system : S) (r : Result (List (MotorState D)) × Arm C)
        → opened (with_states k os rounds system r).system ≡ opened system
    unfolding with_states begin_at
    with_states-opened rounds system (ok ss, a) =
        let positions : List D = map (λ g. g.position) ss in
        let begun : MitControl D C = record {
          arm = a;
          home_targets = positions;
          requested_targets = positions;
          active_targets = positions;
          running = true;
          output = [];
        } in
        with_fifo-opened rounds begun (open_fifo os command_fifo system) (opened system)
          (open_fifo-opened command_fifo system)
    with_states-opened rounds system (err e, a) = refl

    with_config-opened :
        (rounds : List (List Text × ℕ)) (system : S) (r : Result ArmConfig)
        → opened (with_config k os rounds system r).system ≡ opened system
    unfolding with_config
    with_config-opened rounds system (ok config) =
        with_states-opened rounds system (begin_arm k config (Arm.make config))
    with_config-opened rounds system (err e) = refl

    -- However it ends, by an error, by `stop` or by the interrupt, and whatever its arguments, the file, the
    -- FIFO and the lines are, the MIT control program has closed the descriptors that it opened, and no
    -- other: those open at its end are those that were open before it.
    pub control_main-closes :
        {N : Type 0} (y : Yaml N) (argv : List Text) (rounds : List (List Text × ℕ)) (system : S)
        → opened (control_main k os y argv rounds system).system ≡ opened system
    unfolding control_main
    control_main-closes y [] rounds system = refl
    control_main-closes y (program ∷ []) rounds system = refl
    control_main-closes y (program ∷ path ∷ []) rounds system =
        with_config-opened rounds system (load_arm_config y path)
    control_main-closes y (program ∷ path ∷ more ∷ rest) rounds system = refl
