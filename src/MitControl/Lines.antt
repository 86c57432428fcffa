-- ===== src/MitControl/Lines.antt =====
-- `FifoCommandReader::read_lines` of dm_openarm/examples/arm_mit_control.cpp: lines out of bytes that come in
-- pieces.
use dmopenarm.Base.{
  ℕ, ◌≡◌, ◌≢◌, ◌↔◌, refl, sym, ap, ◌∙◌, subst, inl, inr, List, [], ◌∷◌, ◌++◌, append_assoc, arith,
  All, Bool-cases, ◌==◌,
}
use dmopenarm.Text.{Text}
use dmopenarm.MitControl.{line_before, split_lines, read_lines}

abbrev pub Lines : Type 0
Lines = List Text × Text

-- What comes after more bytes.
abbrev with_more : Lines → Lines → Lines
with_more (lines, _) (lines', rest') = (lines ++ lines', rest')

line_before-append :
    (c : ℕ) (p : Lines) (b : Text)
    → line_before c (with_more p (split_lines (p.1 ++ b)))
      ≡ with_more (line_before c p) (split_lines ((line_before c p).1 ++ b))
unfolding line_before split_lines
line_before-append c ([], rest) b = elim (Bool-cases (c == 10)) [
  | inl at_end ↦ rw at_end refl
  | inr inside ↦ rw inside (rw inside refl)
]
line_before-append c (line ∷ lines, rest) b = elim (Bool-cases (c == 10)) [
  | inl at_end ↦ rw at_end refl
  | inr inside ↦ rw inside refl
]

split_lines-append :
    (a b : Text)
    → split_lines (a ++ b) ≡ with_more (split_lines a) (split_lines ((split_lines a).1 ++ b))
unfolding split_lines
split_lines-append [] b = refl
split_lines-append (c ∷ a) b =
    ap (line_before c) (split_lines-append a b) ∙ line_before-append c (split_lines a) b

-- Bytes that come in two pieces give the same lines, and leave the same bytes pending, as those that
-- come at once, wherever the cut is.
pub read_lines-append :
    (pending a b : Text)
    → let (lines, left) = read_lines a pending in
      let (lines', left') = read_lines b left in
      read_lines (a ++ b) pending ≡ (lines ++ lines', left')
unfolding read_lines
read_lines-append pending a b =
    ap split_lines (sym (append_assoc pending a b)) ∙ split_lines-append (pending ++ a) b

abbrev pub OneLine : Text → Type 0
OneLine = All (λ c. c ≢ 10)

-- Each line with its newline, and then the rest.
abbrev pub unsplit : Lines → Text
unsplit ([], rest) = rest
unsplit (line ∷ lines, rest) = line ++ (10 ∷ unsplit (lines, rest))

abbrev pub AreLines : Lines → Type 0
AreLines (lines, rest) = All OneLine lines × OneLine rest

AreLines-line_before :
    (c : ℕ) (p : Lines)
    → AreLines p
    → AreLines (line_before c p) × (unsplit (line_before c p) ≡ c ∷ unsplit p)
unfolding line_before
AreLines-line_before c ([], rest) (ls, r) = elim (Bool-cases (c == 10)) [
  | inl at_end ↦ rw at_end (((tt, tt), r), ap (λ n. n ∷ rest) (ground arith))
  | inr inside ↦ rw inside ((tt, (ground arith, r)), refl)
]
AreLines-line_before c (line ∷ lines, rest) ((l, ls), r) = elim (Bool-cases (c == 10)) [
  | inl at_end ↦
      rw at_end
        (((tt, (l, ls)), r), ap (λ n. n ∷ (line ++ (10 ∷ unsplit (lines, rest)))) (ground arith))
  | inr inside ↦ rw inside ((((ground arith, l), ls), r), refl)
]

AreLines-split_lines :
    (text : Text) → AreLines (split_lines text) × (unsplit (split_lines text) ≡ text)
unfolding split_lines
AreLines-split_lines [] = ((tt, tt), refl)
AreLines-split_lines (c ∷ text) =
    let (are, same) = AreLines-split_lines text in
    let (are', same') = AreLines-line_before c (split_lines text) are in
    (are', same' ∙ ap (λ t. c ∷ t) same)

split_lines-one : (rest : Text) → OneLine rest → split_lines rest ≡ ([], rest)
unfolding split_lines line_before
split_lines-one [] r = refl
split_lines-one (c ∷ rest) (n, r) = ap (line_before c) (split_lines-one rest r) ∙ ground arith

split_lines-line :
    (line text : Text)
    → OneLine line
    → split_lines (line ++ (10 ∷ text)) ≡ (line ∷ (split_lines text).0, (split_lines text).1)
unfolding split_lines line_before
split_lines-line [] text l = refl
split_lines-line (c ∷ line) text (n, l) =
    ap (line_before c) (split_lines-line line text l) ∙ ground arith

split_lines-unsplit :
    (lines : List Text) (rest : Text)
    → All OneLine lines
    → OneLine rest
    → split_lines (unsplit (lines, rest)) ≡ (lines, rest)
split_lines-unsplit [] rest ls r = split_lines-one rest r
split_lines-unsplit (line ∷ lines) rest (l, ls) r =
    split_lines-line line (unsplit (lines, rest)) l
    ∙ ap (λ p. (line ∷ p.0, p.1)) (split_lines-unsplit lines rest ls r)

-- `read_lines` gives certain lines and leaves certain bytes pending exactly if none of them holds a
-- newline and what was pending with what came in is the lines, each with a newline, and these bytes.
pub read_lines_iff :
    (pending bytes : Text) (lines : List Text) (left : Text)
    → (read_lines bytes pending ≡ (lines, left))
      ↔ (All OneLine lines × OneLine left × (unsplit (lines, left) ≡ pending ++ bytes))
unfolding read_lines
read_lines_iff pending bytes lines left = (
  λ e.
      let (are, same) = AreLines-split_lines (pending ++ bytes) in
      let are' = subst AreLines e are in (are'.0, are'.1, ap unsplit (sym e) ∙ same),
  λ (ls, l, e). ap split_lines (sym e) ∙ split_lines-unsplit lines left ls l,
)
