-- ===== src/Text/Tokens.antt =====
-- dm_openarm/src/mit_control_command.cpp, `split_tokens`: what `std::istringstream >> token` reads until the
-- stream ends, in the "C" locale.
pub mod Words
use dmopenarm.Base.{ℕ, Bool, ◌&&◌, ◌||◌, List, [], ◌∷◌, ◌++◌, leb, ◌==◌, if◌then◌else◌}

-- `std::isspace`.
unfoldable pub is_space : ℕ → Bool
is_space c = c == 32 || leb 9 c && leb c 13

-- A token that has been read, if it has any byte.
unfoldable pub push_token : List ℕ → List (List ℕ) → List (List ℕ)
push_token [] tokens = tokens
push_token (c ∷ t) tokens = (c ∷ t) ∷ tokens

-- `token` is what has been read of the token at hand.
unfoldable pub tokens_from : List ℕ → List ℕ → List (List ℕ)
tokens_from token [] = push_token token []
tokens_from token (c ∷ line) =
    let at_space = push_token token (tokens_from [] line) in
    let in_token = tokens_from (token ++ (c ∷ [])) line in if is_space c then at_space else in_token

unfoldable pub split_tokens : List ℕ → List (List ℕ)
unfolding tokens_from push_token is_space
split_tokens line = tokens_from [] line
