-- ===== src/Loader/Distinct.antt =====
-- The two sets of dm_openarm/src/yaml_loader.cpp, and lists without a number twice.
use dmopenarm.Base.{ℕ, ◌≡◌, refl, sym, ◌≢◌, ◌↔◌, false, List, [], ◌∷◌, arith, All}
use dmopenarm.Loader.{contains}

abbrev pub Absent : ℕ → List ℕ → Type 0
Absent x = All (λ z. z ≢ x)

abbrev pub Distinct : List ℕ → Type 0
Distinct [] = Unit
Distinct (x ∷ xs) = Absent x xs × Distinct xs

contains_iff : (xs : List ℕ) (x : ℕ) → (contains xs x ≡ false) ↔ Absent x xs
unfolding contains
contains_iff [] x = (λ _. tt, λ _. refl)
contains_iff (z ∷ xs) x = (
  λ h. (ground arith, (contains_iff xs x).0 (ground arith)),
  λ (ne, rest). ground (arith, (contains_iff xs x).1 rest),
)

-- The numbers of `xs`, inserted in order, are new to the set `seen` each time.
abbrev pub Fresh : List ℕ → List ℕ → Type 0
Fresh seen [] = Unit
Fresh seen (x ∷ xs) = (contains seen x ≡ false) × Fresh (x ∷ seen) xs

abbrev AllAbsent : List ℕ → List ℕ → Type 0
AllAbsent seen [] = Unit
AllAbsent seen (x ∷ xs) = Absent x seen × AllAbsent seen xs

AllAbsent-cons :
    (x : ℕ) (seen xs : List ℕ) → AllAbsent (x ∷ seen) xs ↔ (Absent x xs × AllAbsent seen xs)
AllAbsent-cons x seen [] = (λ _. (tt, tt), λ _. tt)
AllAbsent-cons x seen (z ∷ xs) = (
  λ ((ne, a), rest).
      let (b, c) = (AllAbsent-cons x seen xs).0 rest in ((λ e. ne (sym e), b), (a, c)),
  λ ((ne, b), (a, c)). ((λ e. ne (sym e), a), (AllAbsent-cons x seen xs).1 (b, c)),
)

Fresh-iff : (seen xs : List ℕ) → Fresh seen xs ↔ (Distinct xs × AllAbsent seen xs)
Fresh-iff seen [] = (λ _. (tt, tt), λ _. tt)
Fresh-iff seen (x ∷ xs) = (
  λ (new, rest).
      let (d, a) = (Fresh-iff (x ∷ seen) xs).0 rest in
      let (b, c) = (AllAbsent-cons x seen xs).0 a in ((b, d), ((contains_iff seen x).0 new, c)),
  λ ((b, d), (new, c)). (
    (contains_iff seen x).1 new,
    (Fresh-iff (x ∷ seen) xs).1 (d, (AllAbsent-cons x seen xs).1 (b, c)),
  ),
)

AllAbsent-nil : (xs : List ℕ) → AllAbsent [] xs
AllAbsent-nil [] = tt
AllAbsent-nil (x ∷ xs) = (tt, AllAbsent-nil xs)

pub Fresh-nil_iff : (xs : List ℕ) → Fresh [] xs ↔ Distinct xs
Fresh-nil_iff xs = (λ f. ((Fresh-iff [] xs).0 f).0, λ d. (Fresh-iff [] xs).1 (d, AllAbsent-nil xs))
