-- ===== src/Text/Tests.antt =====
-- Runs of the text functions at inputs whose results the C++ standard fixes.
use dmopenarm.Base.{◌≡◌, refl, some, none, [], ◌∷◌}
use dmopenarm.Text.{codes}
use dmopenarm.Text.Tokens.{split_tokens}
use dmopenarm.Text.Print.{to_string, to_hex}
use dmopenarm.Text.Stoul.{stoul}

stoul_runs :
    (stoul (codes "0x12") ≡ some (18, 4))
    × (stoul (codes "  017z") ≡ some (15, 5))
    × (stoul (codes "-1") ≡ some (0xffff_ffff_ffff_ffff, 2))
    × (stoul (codes "-18446744073709551615") ≡ some (1, 21))
    × (stoul (codes "0xg") ≡ some (0, 1))
    × (stoul (codes "18446744073709551616") ≡ none)
    × (stoul (codes "abc") ≡ none)
unfolding stoul codes
stoul_runs = (refl, refl, refl, refl, refl, refl, refl)

split_tokens_runs :
    split_tokens (codes "  move 0x01\t0.08 ") ≡ codes "move" ∷ codes "0x01" ∷ codes "0.08" ∷ []
unfolding split_tokens codes
split_tokens_runs = refl

print_runs :
    (to_string 1027 ≡ codes "1027") × (to_hex 0x1af ≡ codes "1af") × (to_string 0 ≡ codes "0")
unfolding to_string to_hex codes
print_runs = (refl, refl, refl)
