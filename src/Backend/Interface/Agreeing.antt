-- ===== src/Backend/Interface/Agreeing.antt =====
-- The calls of the serial backend that send or connect agree with those of the link of Backend/Interface/Link.antt.
use dmopenarm.Base.{
  ℕ, ◌≡◌, ◌⊎◌, refl, sym, ap, ◌∙◌, subst, inl, inr, Bool, true, false, Option, none, some,
  Option-cases, List, ◌++◌, append-nil, append_assoc, map, length, ◌==◌, arith, Result, ok, err,
}
use dmopenarm.Double.{Double}
use dmopenarm.Types.{ArmConfig, MitCommand}
use dmopenarm.Sdk.{Sdk, SdkLaws, DmActData}
use dmopenarm.Backend as Serial
use dmopenarm.Backend.{Backend, act_data, not_connected, count_mismatch, make}
use dmopenarm.Backend.Delivery.{frames_for, send_mit_all-Sends}
use dmopenarm.Backend.Errors.{disconnected_throws}
use dmopenarm.Backend.Interface.Link.{Link, opens, construct, link_send, link_connect}
use dmopenarm.Backend.History.{Bound, IsReady}

Bool-cases : (b : Bool) → (b ≡ true) ⊎ (b ≡ false)
Bool-cases true = inl refl
Bool-cases false = inr refl

==-true : (n m : ℕ) → (n == m) ≡ true → n ≡ m
==-true n m e = ground arith

module _ {D F C H : Type 0} ⦃d : Double D⦄ (k : Sdk D F C H) (laws : SdkLaws k)
    (config : ArmConfig) where
  open laws use {frames}

  -- What the library's object, if there is one, says of the link: the frames that it has sent are those
  -- of the object that the constructor returned, and behind them those of the link.
  abbrev pub Shows : Option C → Link F → Type 0
  Shows none l = l.up ≡ false
  Shows (some c) l =
      (l.up ≡ true)
      × ((new : C) × (construct k laws config ≡ ok new) × (frames c ≡ frames new ++ l.sent))

  pub record Represents (b : Backend C) (l : Link F) : Type 0 where
    pub ready : IsReady k laws config b
    pub shows : Shows b.control l

  -- A call of the backend and one of the link that agree.
  pub record Agrees (r : Result (Unit {0}) × Backend C) (s : Result (Unit {0}) × Link F)
      : Type 0 where
    pub same : r.0 ≡ s.0
    pub represents : Represents r.1 s.1

  agree :
      (r x : Result (Unit {0}) × Backend C) (s y : Result (Unit {0}) × Link F)
      → r ≡ x
      → s ≡ y
      → x.0 ≡ y.0
      → IsReady k laws config r.1
      → Shows x.1.control y.1
      → Agrees r s
  agree r x s y p q same ready shows = record {
    same = ap (λ g. g.0) p ∙ same ∙ sym (ap (λ g. g.0) q);
    represents = record {
      ready = ready;
      shows =
          subst (λ g. Shows g s.1) (sym (ap (λ g. g.1.control) p))
            (subst (Shows x.1.control) (sym (ap (λ g. g.1) q)) shows);
    };
  }

  send_mit_all-mismatch :
      (b : Backend C) (c : C) (commands : List (MitCommand D))
      → b.control ≡ some c
      → (length commands == length b.config.motors) ≡ false
      → Serial.send_mit_all k commands b ≡ (err count_mismatch, record b { control = some c })
  unfolding Serial.send_mit_all Serial.on_control
  send_mit_all-mismatch b c commands e n = rw (e, n)

  pub Agrees-send :
      (b : Backend C) (l : Link F) (commands : List (MitCommand D))
      → Represents b l
      → IsReady k laws config (Serial.send_mit_all k commands b).1
      → Agrees (Serial.send_mit_all k commands b) (link_send k laws config l.up commands l)
  Agrees-send b l commands v ready = elim (Option-cases b.control) [
    | inl e ↦
        let isdown : l.up ≡ false = subst (λ g. Shows g l) e v.shows in
        agree _ (err not_connected, b) _ (err not_connected, l)
          (disconnected_throws k b commands 0 false e).0
          (ap (λ g. link_send k laws config g commands l) isdown) refl ready v.shows
    | inr (c, e) ↦
        let (isup, (new, made, base)) = subst (λ g. Shows g l) e v.shows in
        elim (Bool-cases (length commands == length config.motors)) [
          | inl n ↦
              let sent =
                send_mit_all-Sends k laws b c commands e
                  (subst (Bound k laws b.config.motors) e v.ready.bound)
                  (rw v.ready.same (==-true _ _ n)) in
              agree _ (ok tt, record b { control = some sent.after }) _
                (ok tt, record l { sent = l.sent ++ frames_for k laws config.motors commands })
                (λ i. (sent.returned i, sent.backend i))
                (ap (λ g. link_send k laws config g commands l) isup ∙ rw n refl) refl ready
                (
                  isup,
                  (
                    new,
                    made,
                    sent.delivered
                        ∙ ap (λ f. f ++ frames_for k laws b.config.motors commands) base
                        ∙ append_assoc (frames new) l.sent
                            (frames_for k laws b.config.motors commands)
                        ∙ ap (λ g. frames new ++ (l.sent ++ frames_for k laws g.motors commands))
                            v.ready.same,
                  ),
                )
          | inr n ↦
              agree _ (err count_mismatch, record b { control = some c }) _ (err count_mismatch, l)
                (send_mit_all-mismatch b c commands e (rw v.ready.same n))
                (ap (λ g. link_send k laws config g commands l) isup ∙ rw n refl) refl ready
                (isup, (new, made, base))
        ]
  ]

  Agrees-opens :
      (b : Backend C) (l : Link F) (acts : List DmActData) (r : Result C)
      → b.control ≡ none
      → l.up ≡ false
      → construct k laws config ≡ r
      → IsReady k laws config (Serial.install k (record b { init_data = acts }) r).1
      → Agrees (Serial.install k (record b { init_data = acts }) r) (opens k laws config r l)
  unfolding Serial.install
  Agrees-opens b l acts (ok c) e u made ready = record {
    same = refl;
    represents = record { ready = ready; shows = (refl, (c, made, sym (append-nil (frames c)))) };
  }
  Agrees-opens b l acts (err x) e u made ready = record {
    same = refl;
    represents = record { ready = ready; shows = subst (λ o. Shows o l) (sym e) u };
  }

  connect-down :
      (b : Backend C)
      → b.control ≡ none
      → let acts = map act_data b.config.motors in
        Serial.connect k b
        ≡ Serial.install k
            (record b { init_data = acts })
            (k.construct b.config.nom_baud b.config.dat_baud b.config.usb_serial acts)
  unfolding Serial.connect
  connect-down b e = simp (e, Serial.connect)

  pub Agrees-connect :
      (b : Backend C) (l : Link F)
      → Represents b l
      → IsReady k laws config (Serial.connect k b).1
      → Agrees (Serial.connect k b) (link_connect k laws config l.up l)
  unfolding Serial.connect
  Agrees-connect b l v ready = elim (Option-cases b.control) [
    | inl e ↦
        let acts = map act_data b.config.motors in
        let made = k.construct b.config.nom_baud b.config.dat_baud b.config.usb_serial acts in
        let isdown : l.up ≡ false = subst (λ g. Shows g l) e v.shows in
        let same : made ≡ (construct k laws config) =
          ap
            (λ (g : ArmConfig).
              k.construct g.nom_baud g.dat_baud g.usb_serial (map act_data g.motors))
            v.ready.same in
        let p = connect-down b e in
        subst (λ g. Agrees g (link_connect k laws config l.up l)) (sym p)
          (subst (Agrees (Serial.install k (record b { init_data = acts }) made))
            (ap (λ g. opens k laws config g l) same
              ∙ ap (λ g. link_connect k laws config g l) (sym isdown))
            (Agrees-opens b l acts made e isdown (sym same)
              (subst (λ g. IsReady k laws config g.1) p ready)))
    | inr (c, e) ↦
        let shown = subst (λ g. Shows g l) e v.shows in
        agree _ (ok tt, b) _ (ok tt, l) (simp (e, Serial.connect))
          (ap (λ g. link_connect k laws config g l) shown.0) refl ready v.shows
  ]
