-- ===== src/Base/Outcome.antt =====
-- Exceptions as values. A `Result` is what a call returns or throws; an `Action` also changes the
-- state of an object, and what it changed before it threw stays changed.
use mathlib.Core.Path.{◌≡◌, refl}
use mathlib.Core.Bool.{Bool, true, false}
use mathlib.Core.List.{List}
use Prim.Native.Nat.{ℕ}

-- The exceptions that the code throws, with the text of `what()`; `foreign` is any that a library
-- the code calls throws through it.
pub data Exception : Type 0 where
  invalid_argument : List ℕ → Exception
  runtime_error : List ℕ → Exception
  foreign : List ℕ → Exception

unfoldable pub what : Exception → List ℕ
what (invalid_argument text) = text
what (runtime_error text) = text
what (foreign text) = text

pub data Result {ℓ} (V : Type ℓ) : Type ℓ where
  ok : V → Result V
  err : Exception → Result V

infixl 5 ◌>>=◌ ◌>>◌
-- What runs after a call, if the call returned.
module _ {ℓ κ} {V : Type ℓ} {W : Type κ} where
  abbrev pub ◌>>=◌ : Result V → (V → Result W) → Result W
  ◌>>=◌ (err thrown) next = err thrown
  ◌>>=◌ (ok value) next = next value

  pub >>=-eq-ok :
      (call : Result V) (next : V → Result W) {w : W}
      → ◌>>=◌ call next ≡ ok w
      → (v : V) × (call ≡ ok v) × (next v ≡ ok w)
  >>=-eq-ok (err thrown) next returned = cc
  >>=-eq-ok (ok value) next returned = (value, refl, returned)

abbrev pub ◌>>◌ {κ} : {W : Type κ} → Result (Unit {0}) → Result W → Result W
first >> second = first >>= λ _. second

-- `if(test) throw e;`
abbrev pub throw_if : Bool → Exception → Result (Unit {0})
throw_if true e = err e
throw_if false e = ok tt

pub throw_if-eq-ok : (b : Bool) (e : Exception) {u : Unit {0}} → throw_if b e ≡ ok u → b ≡ false
throw_if-eq-ok true e h = cc
throw_if-eq-ok false e h = refl
