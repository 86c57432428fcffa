-- ===== src/Controller/Commands.antt =====
-- `set_command` of dm_openarm/src/mit_loop_controller.cpp on every branch.
use dmopenarm.Base.{
  set-at, ℕ, ◌+◌, ◌≡◌, ◌≢◌, ◌∙◌, refl, ap, sym, List, [], ◌∷◌, ◌++◌, arith, length, All, ok, err,
}
use dmopenarm.Types.{MitCommand}
use dmopenarm.Controller.{
  Controller, unknown_can_id, index_from, motor_index, write_command, set_command,
}

index_from-found :
    (i can_id : ℕ) (before after : List ℕ)
    → All (λ x. x ≢ can_id) before
    → index_from i can_id (before ++ can_id ∷ after) ≡ ok (i + length before)
unfolding index_from
index_from-found i can_id [] after others = ground arith
index_from-found i can_id (x ∷ xs) after (other, others) =
    let rest = index_from-found (i + 1) can_id xs after others in ground (arith, rest)

index_from-unknown :
    (i can_id : ℕ) (ids : List ℕ)
    → All (λ x. x ≢ can_id) ids
    → index_from i can_id ids ≡ err unknown_can_id
unfolding index_from
index_from-unknown i can_id [] others = refl
index_from-unknown i can_id (x ∷ xs) (other, others) =
    let rest = index_from-unknown (i + 1) can_id xs others in ground (arith, rest)

module _ {D C : Type 0} where
  -- Where the CAN ID is that of a motor, behind motors of other CAN IDs, `set_command` writes the command
  -- at this motor's place and changes nothing else.
  pub set_command-known :
      (s : Controller D C) (can_id : ℕ) (command : MitCommand D) (before after : List ℕ)
      (first last : List (MitCommand D)) (old : MitCommand D)
      → s.can_ids ≡ before ++ can_id ∷ after
      → All (λ x. x ≢ can_id) before
      → s.commands ≡ first ++ old ∷ last
      → length first ≡ length before
      → set_command can_id command s ≡ (ok tt, record s { commands = first ++ command ∷ last })
  unfolding set_command motor_index write_command
  set_command-known s can_id command before after first last old ids others old_commands place =
      ap (write_command command s) (ap (index_from 0 can_id) ids ∙ found_first ∙ ap ok (sym place))
      ∙ ap (λ cs. (ok tt, record s { commands = cs }))
          (rw old_commands (set-at first last old command))
    where
      found_first : index_from 0 can_id (before ++ can_id ∷ after) ≡ ok (length before)
      found_first = index_from-found 0 can_id before after others ∙ ap ok (omega arith)

  -- Where no motor has the CAN ID, it throws and changes nothing.
  pub set_command-unknown :
      (s : Controller D C) (can_id : ℕ) (command : MitCommand D)
      → All (λ x. x ≢ can_id) s.can_ids
      → set_command can_id command s ≡ (err unknown_can_id, s)
  unfolding set_command motor_index write_command
  set_command-unknown s can_id command others =
      ap (write_command command s) (index_from-unknown 0 can_id s.can_ids others)
