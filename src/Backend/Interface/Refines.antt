-- ===== src/Backend/Interface/Refines.antt =====
-- That the serial backend keeps the promise of the link of Backend/Interface/Link.antt.
use dmopenarm.Base.{
  All, ◌≡◌, refl, sym, ap, ◌∙◌, subst, inl, inr, false, Option, none, some, Option-cases, List, [],
  ◌∷◌, map, length, replicate, Result, ok, err,
}
use dmopenarm.Base.Outcome
use dmopenarm.Double.{Double}
use dmopenarm.Types.{MotorConfig, ArmConfig, MotorState, default_command}
use dmopenarm.Loader.Distinct.{Distinct}
use dmopenarm.Loader.Motors.{can_ids_of}
use dmopenarm.Sdk.{Sdk, SdkLaws}
use dmopenarm.Backend as Serial
use dmopenarm.Backend.{Backend, act_data, not_connected, count_mismatch, make}
use dmopenarm.Backend.Registry.{Uncrossed}
use dmopenarm.Backend.Delivery.{IsRegistered}
use dmopenarm.Backend.Errors.{disconnected_throws}
use dmopenarm.Backend.Interface.Link.{
  Link, down, link_send, link_states, link_perform, link_perform_all,
}
use dmopenarm.Backend.History.{Bound, IsReady, make-IsReady, after, after-IsReady}
use dmopenarm.Backend.History
use dmopenarm.Backend.Interface.{
  serial, Request, connects, disconnects, sends, sends_zero, reads_states, Answer, blank, answered,
  ids_of, perform, perform_all,
}
use dmopenarm.Backend.Interface.Agreeing.{Represents, Shows, Agrees, Agrees-send, Agrees-connect}

module _ {D F C H : Type 0} ⦃d : Double D⦄ (k : Sdk D F C H) (laws : SdkLaws k)
    (config : ArmConfig) where
  -- Answers that agree.
  record AgreesAll (r : Answer × Backend C) (s : Answer × Link F) : Type 0 where
    pub same : r.0 ≡ s.0
    pub represents : Represents k laws config r.1 s.1

  answered-AgreesAll :
      (r : Result (Unit {0}) × Backend C) (s : Result (Unit {0}) × Link F)
      → Agrees k laws config r s
      → AgreesAll (answered r) (answered s)
  answered-AgreesAll r s v = record { same = ap blank v.same; represents = v.represents }

  ids_of-states_each :
      (c : C) (ms : List MotorConfig)
      → All (IsRegistered k laws c) ms
      → ids_of (Serial.states_each k c ms) ≡ ok (map (λ m. (m.can_id, m.mst_id)) ms)
  unfolding Serial.states_each Serial.state_one
  ids_of-states_each c [] v = refl
  ids_of-states_each c (m ∷ ms) (v, vs) =
      rw (ids_of, v.found) (added (Serial.states_each k c ms) (ids_of-states_each c ms vs))
    where
      added :
          (r : Result (List (MotorState D)))
          → ids_of r ≡ ok (map (λ m. (m.can_id, m.mst_id)) ms)
          → ids_of (Outcome.◌>>=◌ r λ ss. ok (Serial.state_of k c m v.handle ∷ ss))
            ≡ ok (map (λ m. (m.can_id, m.mst_id)) (m ∷ ms))
      added (ok ss) e = cc
      added (err x) e = absurd (cc)

  up_states :
      (b : Backend C) (c : C)
      → b.control ≡ some c
      → Serial.states k b ≡ Serial.states_each k c b.config.motors
  unfolding Serial.states
  up_states b c e = rw (e, Serial.states) refl

  AgreesAll-states :
      (b : Backend C) (l : Link F)
      → Represents k laws config b l
      → AgreesAll (ids_of (Serial.states k b), b) (link_states k laws config l.up, l)
  unfolding Serial.states
  AgreesAll-states b l v = elim (Option-cases b.control) [
    | inl e ↦
        let (_, _, _, _, off) = disconnected_throws k b [] 0 false e in
        record {
          same =
              ap ids_of off
              ∙ ap (link_states k laws config)
                  (sym (subst (λ g. Shows k laws config g l) e v.shows));
          represents = v;
        }
    | inr (c, e) ↦
        let (isup, _) = subst (λ g. Shows k laws config g l) e v.shows in
        let found = subst (Bound k laws b.config.motors) e v.ready.bound in
        record {
          same =
              ap ids_of (up_states b c e)
              ∙ ids_of-states_each c b.config.motors found
              ∙ ap (λ (g : ArmConfig). ok (map (λ m. (m.can_id, m.mst_id)) g.motors)) v.ready.same
              ∙ ap (link_states k laws config) (sym isup);
          represents = v;
        }
  ]

  Agrees-perform :
      (b : Backend C) (l : Link F) (request : Request D)
      → Represents k laws config b l
      → AgreesAll (perform (serial k) request b) (link_perform k laws config request l)
  unfolding perform serial after Serial.disconnect Serial.send_zero_mit_all
  Agrees-perform b l connects v =
      answered-AgreesAll _ _ (
        Agrees-connect k laws config b l v (after-IsReady k laws config b History.connects v.ready))
  Agrees-perform b l disconnects v = record {
    same = refl;
    represents = record {
      ready = after-IsReady k laws config b History.disconnects v.ready;
      shows = refl;
    };
  }
  Agrees-perform b l (sends commands) v = answered-AgreesAll _ _ (
      Agrees-send k laws config b l commands v
        (after-IsReady k laws config b (History.sends commands) v.ready))
  Agrees-perform b l reads_states v = AgreesAll-states b l v
  Agrees-perform b l sends_zero v = answered-AgreesAll _ _ (
      subst
        (λ g.
          Agrees k laws config
            (Serial.send_mit_all k (replicate (length b.config.motors) default_command) b)
            (link_send k laws config l.up (replicate (length g.motors) default_command) l))
        v.ready.same
        (Agrees-send k laws config b l (replicate (length b.config.motors) default_command) v
          (after-IsReady k laws config b History.sends_zero v.ready)))

  perform_all-Represents :
      (requests : List (Request D)) (b : Backend C) (l : Link F)
      → Represents k laws config b l
      → let r = perform_all (serial k) requests b in
        let s = link_perform_all k laws config requests l in
        (r.0 ≡ s.0) × Represents k laws config r.1 s.1
  unfolding perform_all
  perform_all-Represents [] b l v = (refl, v)
  perform_all-Represents (request ∷ requests) b l v =
      let first = Agrees-perform b l request v in
      let (same, represents) =
        perform_all-Represents requests (perform (serial k) request b).1
          (link_perform k laws config request l).1 first.represents in
      (λ i. first.same i ∷ same i, represents)

  -- What can be read of a backend agrees too.
  connected-up :
      (b : Backend C) (l : Link F) → Represents k laws config b l → Serial.connected b ≡ l.up
  unfolding Serial.connected
  connected-up b l v = go b.control v.shows
    where
      go : (o : Option C) → Shows k laws config o l → Serial.is_some o ≡ l.up
      go none e = sym e
      go (some c) (e, _) = sym e

  -- The serial backend of a configuration that has no CAN ID twice and none that is the MST ID of a motor
  -- before keeps the promise of the link: whatever calls of the methods of `MotorBackend` are made on it,
  -- each returns or throws what the link says, and the states that `states` returns have the IDs of the
  -- motors, in order; it is connected at the end exactly if the link is up, and then the library's object
  -- has sent, since its constructor returned, exactly the frames of the link.
  pub serial-refines :
      (requests : List (Request D))
      → Distinct (can_ids_of config.motors)
      → Uncrossed config.motors
      → let r = perform_all (serial k) requests (make config) in
        let s = link_perform_all k laws config requests down in
        (r.0 ≡ s.0) × ((serial k).connected r.1 ≡ s.1.up) × Represents k laws config r.1 s.1
  unfolding make serial
  serial-refines requests distinct uncrossed =
      let v : Represents k laws config (make config) down = record {
        ready = make-IsReady k laws config distinct uncrossed;
        shows = refl;
      } in
      let (same, represents) = perform_all-Represents requests (make config) down v in
      (same, connected-up _ _ represents, represents)
