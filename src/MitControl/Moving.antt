-- ===== src/MitControl/Moving.antt =====
-- What a `move` and a `home` line do to the targets of dm_openarm/examples/arm_mit_control.cpp.
use dmopenarm.Base.{
  ℕ, ◌+◌, ◌<◌, ◌≡◌, ◌≢◌, refl, sym, ap, ◌∙◌, List, [], ◌∷◌, ◌++◌, All, arith, length, get_or, set,
  set-at, get_or-at, ok,
}
use dmopenarm.Base.Outcome
use dmopenarm.Text.{Text, codes, text_eq}
use dmopenarm.Text.Print.{to_string}
use dmopenarm.Text.Tokens.Words.{IsWord}
use dmopenarm.Double.{Double, zero_of}
use dmopenarm.Types.{MotorConfig}
use dmopenarm.Command.{home_all, command_of, parse_mit_control_command, require_arg_count}
use dmopenarm.Text.Tokens.{split_tokens}
use dmopenarm.Command.Grammar.{IsDelta}
use dmopenarm.Command.Printed.{move_line, parse-move_line}
use dmopenarm.Sdk.{Sdk}
use dmopenarm.MitControl.{
  received, updated, homing_all, MitControl, max_delta, require_known_motor, index_from,
  motor_index, known_index, set_requested, obey, try_line, handle_line,
}

require_known_motor-at :
    (can_id : ℕ) (before : List MotorConfig) (m : MotorConfig) (after : List MotorConfig)
    → m.can_id ≡ can_id
    → All (λ x. x.can_id ≢ can_id) before
    → require_known_motor can_id (before ++ m ∷ after) ≡ ok can_id
unfolding require_known_motor
require_known_motor-at can_id [] m after e others = ground (arith, e)
require_known_motor-at can_id (x ∷ xs) m after e (other, others) =
    let rest = require_known_motor-at can_id xs m after e others in ground (arith, rest)

index_from-at :
    (i can_id : ℕ) (before : List MotorConfig) (m : MotorConfig) (after : List MotorConfig)
    → m.can_id ≡ can_id
    → All (λ x. x.can_id ≢ can_id) before
    → index_from i can_id (before ++ m ∷ after) ≡ ok (i + length before)
unfolding index_from
index_from-at i can_id [] m after e others = ground (arith, e)
index_from-at i can_id (x ∷ xs) m after e (other, others) =
    let rest = index_from-at (i + 1) can_id xs m after e others in ground (arith, rest)

-- Where a motor is found that is the first with its CAN ID.
index-at :
    (can_id : ℕ) (ms before : List MotorConfig) (m : MotorConfig) (after : List MotorConfig)
    → ms ≡ before ++ m ∷ after
    → m.can_id ≡ can_id
    → All (λ x. x.can_id ≢ can_id) before
    → Outcome.◌>>=◌ (require_known_motor can_id ms) (λ _. motor_index can_id ms)
      ≡ ok (length before)
unfolding motor_index
index-at can_id ms before m after whole e others =
    rw (whole, require_known_motor-at can_id before m after e others)
      (index_from-at 0 can_id before m after e others ∙ ap ok (omega arith))

module _ {D F C H : Type 0} ⦃d : Double D⦄ (k : Sdk D F C H) where
  -- A `move` line with the CAN ID of a motor, the first of its CAN ID, and a word that `std::stod` reads
  -- whole as a number within the limit adds this number to the requested target at the motor's place, and
  -- says so; nothing else changes.
  pub handle_line-move_line :
      (n : ℕ) (delta : Text) (x old : D) (s : MitControl D C) (before : List MotorConfig)
      (m : MotorConfig) (after : List MotorConfig) (first last : List D)
      → n < 65536
      → IsWord delta
      → IsDelta max_delta delta x
      → s.arm.config.motors ≡ before ++ m ∷ after
      → m.can_id ≡ n
      → All (λ y. y.can_id ≢ n) before
      → s.requested_targets ≡ first ++ old ∷ last
      → length first ≡ length before
      → let line = move_line (to_string n) delta in
        let target = d.add old x in
        handle_line k line s ≡ record s {
          requested_targets = first ++ target ∷ last;
          output = (s.output ++ (received line ∷ [])) ++ (updated n target ∷ []);
        }
  unfolding handle_line try_line obey known_index set_requested
  handle_line-move_line n delta x old s before m after first last h w dl motors own others requested
        place =
      let i = length before in
      let z = zero_of d in
      let old_at : get_or s.requested_targets i z ≡ old =
        rw (requested, sym place) (get_or-at first last old z) in
      let new_at : set s.requested_targets i (d.add old x) ≡ first ++ d.add old x ∷ last =
        rw (requested, sym place) (set-at first last old (d.add old x)) in
      rw (
        parse-move_line n delta max_delta x h w dl,
        index-at n s.arm.config.motors before m after motors own others,
        old_at,
        new_at,
      )

  parse-home_all :
      parse_mit_control_command (codes "home all") max_delta
      ≡ ok (command_of home_all 0 (zero_of d))
  unfolding parse_mit_control_command split_tokens require_arg_count codes text_eq
  parse-home_all = refl

  -- The line `home all` requests the home targets, and says so; nothing else changes.
  pub handle_line-home_all :
      (s : MitControl D C)
      → handle_line k (codes "home all") s ≡ record s {
        requested_targets = s.home_targets;
        output = (s.output ++ (received (codes "home all") ∷ [])) ++ (homing_all ∷ []);
      }
  unfolding handle_line try_line obey
  handle_line-home_all s = rw parse-home_all
