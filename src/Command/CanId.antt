-- ===== src/Command/CanId.antt =====
-- `parse_can_id` of dm_openarm/src/mit_control_command.cpp: which texts it takes, and as which number.
use dmopenarm.Base.{ℕ, ◌<◌, ◌≡◌, ◌↔◌, some, arith, length, ok}
use dmopenarm.Text.{Text}
use dmopenarm.Text.Stoul.{stoul}
use dmopenarm.Command.{parse_can_id}

-- The whole of the text is one number of `std::stoul` that fits 16 bits.
pub record IsCanId (text : Text) (n : ℕ) : Type 0 where
  pub read : stoul text ≡ some (n, length text)
  pub fits : n < 65536

pub parse_can_id-of_IsCanId : (text : Text) (n : ℕ) → IsCanId text n → parse_can_id text ≡ ok n
unfolding parse_can_id
parse_can_id-of_IsCanId text n h = ground arith

IsCanId-of_parse_can_id : (text : Text) (n : ℕ) → parse_can_id text ≡ ok n → IsCanId text n
unfolding parse_can_id
IsCanId-of_parse_can_id text n h = ground arith

pub parse_can_id_iff : (text : Text) (n : ℕ) → (parse_can_id text ≡ ok n) ↔ IsCanId text n
parse_can_id_iff text n = (IsCanId-of_parse_can_id text n, parse_can_id-of_IsCanId text n)
