-- ===== src/Command/Grammar.antt =====
-- The command language of dm_openarm/src/mit_control_command.cpp as a relation, and the parser against it.
use dmopenarm.Base.{
  ℕ, ◌≡◌, refl, ◌≢◌, ◌↔◌, inl, inr, false, some, List, [], ◌∷◌, arith, length, Bool-cases, ok,
}
use mathlib.Core.Path.{ap₂}
use dmopenarm.Text.{Text, codes, text_eq, text_eq_iff, text_ne, ne_of_text_eq}
use dmopenarm.Text.Tokens.{split_tokens}
use dmopenarm.Double.{Double, zero_of}
use dmopenarm.Base.Outcome.{>>=-eq-ok}
use dmopenarm.Command.{
  MitControlCommand, MitControlCommandKind, parse_move, parse_home, parse_plain, status, move,
  home_one, home_all, stop, command_of, parse_can_id, parse_delta, parse_tokens, parse_split,
  parse_mit_control_command, require_arg_count,
}
use dmopenarm.Command.CanId.{IsCanId, parse_can_id_iff}

module _ {D : Type 0} ⦃d : Double D⦄ where
  -- The whole of the text is one number of `std::stod` whose size is not above the limit.
  pub record IsDelta (limit : D) (text : Text) (x : D) : Type 0 where
    pub read : d.stod text ≡ some (x, length text)
    pub within : d.lt limit (d.abs x) ≡ false

  pub data Accepts (limit : D) (tokens : List Text) (c : MitControlCommand D) : Type 0 where
    says_status :
        tokens ≡ codes "status" ∷ [] → c ≡ command_of status 0 (zero_of d) → Accepts limit tokens c
    says_stop :
        tokens ≡ codes "stop" ∷ [] → c ≡ command_of stop 0 (zero_of d) → Accepts limit tokens c
    says_home_all :
        tokens ≡ codes "home" ∷ codes "all" ∷ []
        → c ≡ command_of home_all 0 (zero_of d)
        → Accepts limit tokens c
    says_home_one :
        (id : Text) (n : ℕ)
        → tokens ≡ codes "home" ∷ id ∷ []
        → id ≢ codes "all"
        → IsCanId id n
        → c ≡ command_of home_one n (zero_of d)
        → Accepts limit tokens c
    says_move :
        (id delta : Text) (n : ℕ) (x : D)
        → tokens ≡ codes "move" ∷ id ∷ delta ∷ []
        → IsCanId id n
        → IsDelta limit delta x
        → c ≡ command_of move n x
        → Accepts limit tokens c

  parse_delta-of_IsDelta :
      (text : Text) (limit x : D) → IsDelta limit text x → parse_delta text limit ≡ ok x
  unfolding parse_delta
  parse_delta-of_IsDelta text limit x h = ground arith

  IsDelta-of_parse_delta :
      (text : Text) (limit x : D) → parse_delta text limit ≡ ok x → IsDelta limit text x
  unfolding parse_delta
  IsDelta-of_parse_delta text limit x h = ground arith

  complete :
      (limit : D) (tokens : List Text) (c : MitControlCommand D)
      → Accepts limit tokens c
      → parse_tokens tokens limit ≡ ok c
  unfolding parse_tokens require_arg_count text_eq codes
  complete limit tokens c (says_status e f) = rw (e, f)
  complete limit tokens c (says_stop e f) = rw (e, f)
  complete limit tokens c (says_home_all e f) = rw (e, f)
  complete limit tokens c (says_home_one id n e ne i f) =
      rw (e, f, text_ne id (codes "all") ne, (parse_can_id_iff id n).1 i)
  complete limit tokens c (says_move id delta n x e i dl f) =
      rw (e, f, (parse_can_id_iff id n).1 i, parse_delta-of_IsDelta delta limit x dl)

  plain_inversion :
      (kind : MitControlCommandKind) (word t : Text) (rest : List Text) (c : MitControlCommand D)
      → parse_plain kind word (t ∷ rest) ≡ ok c
      → (rest ≡ []) × (c ≡ command_of kind 0 (zero_of d))
  unfolding parse_plain require_arg_count
  plain_inversion kind word t [] c h = ground arith
  plain_inversion kind word t (u ∷ rest) c h = ground arith

  home_inversion :
      (limit : D) (rest : List Text) (c : MitControlCommand D)
      → parse_home (codes "home" ∷ rest) ≡ ok c
      → Accepts limit (codes "home" ∷ rest) c
  unfolding parse_home require_arg_count
  home_inversion limit [] c h = cc
  home_inversion limit (id ∷ u ∷ rest) c h = absurd (ground arith)
  home_inversion limit (id ∷ []) c h = elim (Bool-cases (text_eq id (codes "all"))) [
    | inl all ↦ says_home_all (rw ((text_eq_iff id (codes "all")).0 all)) (ground arith)
    | inr one ↦
        let (n, e, f) =
          >>=-eq-ok (parse_can_id id) (λ n. ok (command_of home_one n (zero_of d))) (rw one at h) in
        says_home_one id n refl (ne_of_text_eq id _ one) ((parse_can_id_iff id n).0 e)
          (ground arith)
  ]

  move_inversion :
      (limit : D) (rest : List Text) (c : MitControlCommand D)
      → parse_move (codes "move" ∷ rest) limit ≡ ok c
      → Accepts limit (codes "move" ∷ rest) c
  unfolding parse_move require_arg_count
  move_inversion limit [] c h = cc
  move_inversion limit (id ∷ []) c h = cc
  move_inversion limit (id ∷ u ∷ v ∷ rest) c h = absurd (ground arith)
  move_inversion limit (id ∷ delta ∷ []) c h =
      let (n, e, f) = >>=-eq-ok (parse_can_id id) _ h in
      let (x, g, k) = >>=-eq-ok (parse_delta delta limit) _ f in
      says_move id delta n x refl ((parse_can_id_iff id n).0 e)
        (IsDelta-of_parse_delta delta limit x g) (ground arith)

  sound :
      (limit : D) (t : Text) (rest : List Text) (c : MitControlCommand D)
      → parse_tokens (t ∷ rest) limit ≡ ok c
      → Accepts limit (t ∷ rest) c
  unfolding parse_tokens
  sound limit t rest c h = elim (Bool-cases (text_eq t (codes "status"))) [
    | inl is ↦
        let (r, e) = plain_inversion status (codes "status") t rest c (rw is at h) in
        says_status (ap₂ ◌∷◌ ((text_eq_iff t _).0 is) r) e
    | inr a ↦ elim (Bool-cases (text_eq t (codes "move"))) [
      | inl is ↦
          rw ((text_eq_iff t (codes "move")).0 is)
            (move_inversion limit rest c (rw (a, is, (text_eq_iff t (codes "move")).0 is) at h))
      | inr b ↦ elim (Bool-cases (text_eq t (codes "home"))) [
        | inl is ↦
            rw ((text_eq_iff t (codes "home")).0 is) (
              home_inversion limit rest c (rw (a, b, is, (text_eq_iff t (codes "home")).0 is) at h))
        | inr w ↦ elim (Bool-cases (text_eq t (codes "stop"))) [
          | inl is ↦
              let (r, e) = plain_inversion stop (codes "stop") t rest c (rw (a, b, w, is) at h) in
              says_stop (ap₂ ◌∷◌ ((text_eq_iff t _).0 is) r) e
          | inr v ↦ absurd (cc (rw (a, b, w, v) at h))
        ]
      ]
    ]
  ]

  parse_split_iff :
      (limit : D) (tokens : List Text) (c : MitControlCommand D)
      → (parse_split tokens limit ≡ ok c) ↔ Accepts limit tokens c
  unfolding parse_split
  parse_split_iff limit [] c = (λ h. absurd (cc), λ a. absurd (no_tokens a))
    where
      no_tokens : Accepts limit [] c → ⊥
      no_tokens (says_status e _) = cc
      no_tokens (says_stop e _) = cc
      no_tokens (says_home_all e _) = cc
      no_tokens (says_home_one _ _ e _ _ _) = cc
      no_tokens (says_move _ _ _ _ e _ _ _) = cc
  parse_split_iff limit (t ∷ rest) c = (sound limit t rest c, complete limit (t ∷ rest) c)

  -- The parser returns a command exactly when the tokens of the line are that command in the command
  -- language: a word, and for `home` and `move` a CAN ID of 16 bits or `all`, and a number whose size
  -- is not above the limit.
  pub parse_mit_control_command_iff :
      (line : Text) (limit : D) (c : MitControlCommand D)
      → (parse_mit_control_command line limit ≡ ok c) ↔ Accepts limit (split_tokens line) c
  unfolding parse_mit_control_command
  parse_mit_control_command_iff line limit c = parse_split_iff limit (split_tokens line) c
