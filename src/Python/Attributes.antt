-- ===== src/Python/Attributes.antt =====
-- That the attributes which dm_openarm/src/python_bindings.cpp binds are all the members of a command.
use dmopenarm.Base.{◌≡◌, refl, List, [], ◌∷◌, map, some}
use dmopenarm.Double.{Double}
use dmopenarm.Types.{MitCommand}
use dmopenarm.Python.{Attribute, mit_command, mit_command_init}

-- Each attribute in turn is written with the value at its place.
abbrev pub write_all : {A V : Type 0} → List (Attribute A V) → List V → A → A
write_all (t ∷ ts) (v ∷ vs) a = write_all ts vs (t.write v a)
write_all _ _ a = a

abbrev pub read_all : {A V : Type 0} → List (Attribute A V) → A → List V
read_all ts a = map (λ t. t.read a) ts

-- Whatever a command was, with its five attributes written it is the command that the constructor makes
-- of the same values, and it reads as these values.
pub write_all-mit_command_init :
    {D : Type 0} ⦃d : Double D⦄ (c : MitCommand D) (kp kd q dq tau : D)
    → let values = kp ∷ kd ∷ q ∷ dq ∷ tau ∷ [] in
      let made = mit_command_init (some kp) (some kd) (some q) (some dq) (some tau) in
      (write_all mit_command values c ≡ made) × (read_all mit_command made ≡ values)
write_all-mit_command_init c kp kd q dq tau = (refl, refl)
