-- ===== src/Backend/Crossed.antt =====
-- A configuration that dm_openarm/src/yaml_loader.cpp accepts and whose commands go to the wrong motor: a CAN ID
-- that is the MST ID of a motor before.
use dmopenarm.Base.{
  ℕ, suc, ◌≡◌, refl, sym, ap, ◌∙◌, inl, inr, true, ◌||◌, some, List, [], ◌∷◌, ◌++◌, append-nil,
  append_assoc, map, arith, length, ok, ◌==◌, Option-cases,
}
use mathlib.Core.Path.{ap₂}
use dmopenarm.Base.Action.{continue-of_ok}
use dmopenarm.Double.{Double}
use dmopenarm.Types.{MotorConfig, ArmConfig, MitCommand}
use dmopenarm.Sdk.{DmActData, MitFrame, Sdk, SdkLaws, find_act}
use dmopenarm.Backend.{make, connect, install, act_data, send_one, send_each, send_mit_all}
use dmopenarm.Backend.Delivery.{frame_to, send_one-found, send_mit_all-loop}

module _ {D F C H : Type 0} ⦃d : Double D⦄ (k : Sdk D F C H) (laws : SdkLaws k) where
  open laws use {id_of, frames}

  -- The loop only ever adds to what was sent.
  send_each_extends :
      (ms : List MotorConfig) (xs : List (MitCommand D)) (c : C)
      → (tail : List (MitFrame F)) × (frames (send_each k ms xs c).1 ≡ frames c ++ tail)
  unfolding send_each send_one
  send_each_extends [] xs c = ([], sym (append-nil (frames c)))
  send_each_extends (m ∷ ms) [] c = ([], sym (append-nil (frames c)))
  send_each_extends (m ∷ ms) (x ∷ xs) c = elim (Option-cases (k.get_motor c m.can_id)) [
    | inl e ↦ ([], rw (e, send_one) (sym (append-nil (frames c))))
    | inr (h, e) ↦
        let step = send_one k m x c in
        let (returned, sent, same) = send_one-found k laws m x c h e in
        let (tail, more) = send_each_extends ms xs step.1 in
        (
          frame_to k laws (id_of h) x ∷ tail,
          rw (continue-of_ok (λ _. send_each k ms xs) step tt returned) (
              more
              ∙ ap (λ f. f ++ tail) sent
              ∙ append_assoc (frames c) (frame_to k laws (id_of h) x ∷ []) tail),
        )
  ]

  -- What a connection of a new backend is.
  connect-construct :
      (config : ArmConfig) (c : C)
      → (connect k (make config)).1.control ≡ some c
      → k.construct config.nom_baud config.dat_baud config.usb_serial (map act_data config.motors)
        ≡ ok c
  unfolding connect make install
  connect-construct config c e = ground arith

  connect-motors : (config : ArmConfig) → (connect k (make config)).1.config ≡ config
  unfolding connect make install
  connect-motors config = ground arith

  -- Two commands at the head of the loop, for motors that the object finds.
  send_each-two :
      (a b : MotorConfig) (rest : List MotorConfig) (x y : MitCommand D) (xs : List (MitCommand D))
      (c : C) (g h : H)
      → k.get_motor c a.can_id ≡ some g
      → k.get_motor c b.can_id ≡ some h
      → (tail : List (MitFrame F)) × (frames (send_each k (a ∷ b ∷ rest) (x ∷ y ∷ xs) c).1
          ≡ frames c ++ (frame_to k laws (id_of g) x ∷ frame_to k laws (id_of h) y ∷ tail))
  unfolding send_each
  send_each-two a b rest x y xs c g h e f =
      let first = send_one k a x c in
      let (returned, sent, same) = send_one-found k laws a x c g e in
      let second = send_one k b y first.1 in
      let (returned', sent', same') = send_one-found k laws b y first.1 h (same b.can_id ∙ f) in
      let (tail, more) = send_each_extends rest xs second.1 in
      let to_a = frame_to k laws (id_of g) x in
      let to_b = frame_to k laws (id_of h) y in
      (
        tail,
        rw
            (
              continue-of_ok (λ _. send_each k (b ∷ rest) (y ∷ xs)) first tt returned,
              continue-of_ok (λ _. send_each k rest xs) second tt returned',
            )
            (more
              ∙ ap (λ z. z ++ tail) (sent' ∙ ap (λ z. z ++ (to_b ∷ [])) sent)
              ∙ append_assoc (frames c ++ (to_a ∷ [])) (to_b ∷ []) tail
              ∙ append_assoc (frames c) (to_a ∷ []) (to_b ∷ tail)),
      )

  found_under :
      (config : ArmConfig) (acts : List DmActData) (a : MotorConfig) (c : C) (id : ℕ)
      → map act_data config.motors ≡ act_data a ∷ acts
      → (a.can_id == id || a.mst_id == id) ≡ true
      → (connect k (make config)).1.control ≡ some c
      → (h : H) × (k.get_motor c id ≡ some h) × (id_of h ≡ a.can_id)
  unfolding find_act
  found_under config acts a c id ms hit e =
      laws.finds config.nom_baud config.dat_baud config.usb_serial (map act_data config.motors) c
        (act_data a) id (connect-construct config c e) (rw (ms, hit))

  -- If the CAN ID of the second motor is the MST ID of the first, then on a new connection every
  -- `send_mit_all` with one command for each motor sends the second motor's command to the first
  -- motor, behind the first motor's own.
  pub crossed_misdelivers :
      (config : ArmConfig) (a b : MotorConfig) (rest : List MotorConfig) (x y : MitCommand D)
      (xs : List (MitCommand D)) (c : C)
      → config.motors ≡ a ∷ b ∷ rest
      → b.can_id ≡ a.mst_id
      → length xs ≡ length rest
      → (connect k (make config)).1.control ≡ some c
      → (c' : C) × (tail : List (MitFrame F)) × ((send_mit_all k
            (x ∷ y ∷ xs)
            (connect k (make config)).1).1.control
          ≡ some c')
        × (frames c' ≡ frames c ++ (frame_to k laws a.can_id x ∷ frame_to k laws a.can_id y ∷ tail))
  crossed_misdelivers config a b rest x y xs c ms cross n e =
      let made = (connect k (make config)).1 in
      let acts = act_data b ∷ map act_data rest in
      let (g, found, own) =
        found_under config acts a c a.can_id (ap (map act_data) ms) (ground arith) e in
      let (h, found', own') =
        found_under config acts a c b.can_id (ap (map act_data) ms) (ground arith) e in
      let (tail, sent) = send_each-two a b rest x y xs c g h found found' in
      let same : made.config.motors ≡ a ∷ b ∷ rest =
        ap (λ f. f.motors) (connect-motors config) ∙ ms in
      let count : length (x ∷ y ∷ xs) ≡ length made.config.motors =
        rw same (ap (λ l. suc (suc l)) n) in
      rw (send_mit_all-loop k made c (x ∷ y ∷ xs) e count) (
        (send_each k made.config.motors (x ∷ y ∷ xs) c).1,
        tail,
        refl,
        rw same (
            sent
            ∙ ap₂ (λ i j. frames c ++ (frame_to k laws i x ∷ frame_to k laws j y ∷ tail)) own own'),
      )
