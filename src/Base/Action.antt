-- ===== src/Base/Action.antt =====
-- A method of a stateful object: it takes the state, and gives what it returns or throws with the
-- state it leaves. A throw does not undo what the method has already done.
use mathlib.Core.Path.{◌≡◌}
use native.Mathlib.Omega.{arith}
use mathlib.Core.Bool.{Bool, true, false}
use dmopenarm.Base.Outcome.{Exception, Result, ok, err}

abbrev pub Action : Type 0 → Type 0 → Type 0
Action S A = S → Result A × S

abbrev pub pure : {S A : Type 0} → A → Action S A
pure a s = (ok a, s)

abbrev pub throw : {S A : Type 0} → Exception → Action S A
throw e s = (err e, s)

-- What runs after a call: only if the call returned.
abbrev pub continue : {S A B : Type 0} → (A → Action S B) → Result A × S → Result B × S
continue f (ok a, s) = f a s
continue f (err e, s) = (err e, s)

pub continue-of_ok :
    {S A B : Type 0} (f : A → Action S B) (r : Result A × S) (a : A)
    → r.0 ≡ ok a
    → continue f r ≡ f a r.1
continue-of_ok f (ok b, s) a e = ground arith
continue-of_ok f (err x, s) a e = absurd (cc)

infixl 5 ◌>>=◌ ◌>>◌
abbrev pub ◌>>=◌ : {S A B : Type 0} → Action S A → (A → Action S B) → Action S B
◌>>=◌ m f s = continue f (m s)

abbrev pub ◌>>◌ : {S B : Type 0} → Action S (Unit {0}) → Action S B → Action S B
◌>>◌ m k s = continue (λ _. k) (m s)

-- `if(test) throw e;`
abbrev pub throw_if : {S : Type 0} → Bool → Exception → Action S (Unit {0})
throw_if true e s = (err e, s)
throw_if false e s = (ok tt, s)
