-- ===== src/Loader/Motors.antt =====
-- The loop of dm_openarm/src/yaml_loader.cpp over the entries of `motors`: which lists of motors it returns.
use dmopenarm.Base.{
  ℕ, zero, suc, ◌+◌, ◌≡◌, refl, sym, ap, ◌∙◌, subst, ◌↔◌, false, List, [], ◌∷◌, ◌++◌, append-nil,
  append_assoc, map, arith, length, ok,
}
use dmopenarm.Base.Outcome.{>>=-eq-ok}
use dmopenarm.Text.{is_empty}
use dmopenarm.Types.{MotorConfig}
use dmopenarm.Yaml.{Yaml}
use dmopenarm.Loader.{
  Seen, contains, push_motor, parse_motor, prefix_at, load_motors, load_motor_list,
}
use dmopenarm.Loader.Fields.{IsMotor, parse_motor_iff}
use dmopenarm.Loader.Distinct.{Distinct, Fresh, Fresh-nil_iff}

abbrev pub can_ids_of : List MotorConfig → List ℕ
can_ids_of = map λ m. m.can_id

abbrev pub mst_ids_of : List MotorConfig → List ℕ
mst_ids_of = map λ m. m.mst_id

abbrev pushed : Seen → MotorConfig → Seen
pushed s m = record {
  can_ids = m.can_id ∷ s.can_ids;
  mst_ids = m.mst_id ∷ s.mst_ids;
  motors = s.motors ++ (m ∷ []);
}

abbrev pushed_all : Seen → List MotorConfig → Seen
pushed_all s [] = s
pushed_all s (m ∷ ms) = pushed_all (pushed s m) ms

push_motor_iff :
    (s s' : Seen) (m : MotorConfig)
    → (push_motor s m ≡ ok s') ↔ (
        (contains s.can_ids m.can_id ≡ false)
        × (contains s.mst_ids m.mst_id ≡ false)
        × (s' ≡ pushed s m))
unfolding push_motor
push_motor_iff s s' m = (λ h. (ground arith, ground arith, ground arith), λ h. ground arith)

motors-pushed_all : (s : Seen) (ms : List MotorConfig) → (pushed_all s ms).motors ≡ s.motors ++ ms
motors-pushed_all s [] = sym (append-nil s.motors)
motors-pushed_all s (m ∷ ms) = motors-pushed_all (pushed s m) ms ∙ append_assoc s.motors (m ∷ []) ms

abbrev none_seen : Seen
none_seen = record { can_ids = []; mst_ids = []; motors = [] }

module _ {N : Type 0} ⦃y : Yaml N⦄ where
  -- The entries from index `i` on are these motors.
  abbrev pub AreMotors : N → ℕ → List MotorConfig → Type 0
  AreMotors motors i [] = Unit
  AreMotors motors i (m ∷ ms) = IsMotor (y.item motors i) m × AreMotors motors (i + 1) ms

  record Loads (motors : N) (left i : ℕ) (s s' : Seen) : Type 0 where
    ms : List MotorConfig
    count : length ms ≡ left
    are : AreMotors motors i ms
    can_fresh : Fresh s.can_ids (can_ids_of ms)
    mst_fresh : Fresh s.mst_ids (mst_ids_of ms)
    result : s' ≡ pushed_all s ms

  load_motors-of_Loads :
      (motors : N) (left i : ℕ) (s : Seen) (ms : List MotorConfig)
      → length ms ≡ left
      → AreMotors motors i ms
      → Fresh s.can_ids (can_ids_of ms)
      → Fresh s.mst_ids (mst_ids_of ms)
      → load_motors motors left i s ≡ ok (pushed_all s ms)
  unfolding load_motors
  load_motors-of_Loads motors zero i s [] c a f g = refl
  load_motors-of_Loads motors (suc left) i s (m ∷ ms) c (a, as') (f, fs) (g, gs) =
      rw
        (
          (parse_motor_iff (y.item motors i) (prefix_at i) m).1 a,
          (push_motor_iff s (pushed s m) m).1 (f, g, refl),
        )
        (load_motors-of_Loads motors left (i + 1) (pushed s m) ms (omega arith) as' fs gs)
  load_motors-of_Loads motors zero i s (m ∷ ms) c a f g = absurd (omega arith)
  load_motors-of_Loads motors (suc left) i s [] c a f g = absurd (omega arith)

  Loads-of_load_motors :
      (motors : N) (left i : ℕ) (s s' : Seen)
      → load_motors motors left i s ≡ ok s'
      → Loads motors left i s s'
  unfolding load_motors
  Loads-of_load_motors motors zero i s s' h = record {
    ms = [];
    count = refl;
    are = tt;
    can_fresh = tt;
    mst_fresh = tt;
    result = ground arith;
  }
  Loads-of_load_motors motors (suc left) i s s' h =
      let (m, p, h₁) = >>=-eq-ok (parse_motor (y.item motors i) (prefix_at i)) _ h in
      let (t, q, h₂) = >>=-eq-ok (push_motor s m) _ h₁ in
      let (f, g, e) = (push_motor_iff s t m).0 q in
      let rest = Loads-of_load_motors motors left (i + 1) t s' h₂ in
      record {
        ms = m ∷ rest.ms;
        count = ap suc rest.count;
        are = ((parse_motor_iff (y.item motors i) (prefix_at i) m).0 p, rest.are);
        can_fresh = (f, subst (λ u. Fresh u.can_ids (can_ids_of rest.ms)) e rest.can_fresh);
        mst_fresh = (g, subst (λ u. Fresh u.mst_ids (mst_ids_of rest.ms)) e rest.mst_fresh);
        result = rest.result ∙ ap (λ u. pushed_all u rest.ms) e;
      }

  -- The entries of a `motors` node are these motors, at least one, and no ID occurs twice.
  pub record IsMotorList (motors : N) (ms : List MotorConfig) : Type 0 where
    pub count : length ms ≡ y.size motors
    pub are : AreMotors motors 0 ms
    pub can_distinct : Distinct (can_ids_of ms)
    pub mst_distinct : Distinct (mst_ids_of ms)
    pub nonempty : is_empty ms ≡ false

  pub IsMotorList-of_load :
      (motors : N) (ms : List MotorConfig) → load_motor_list motors ≡ ok ms → IsMotorList motors ms
  unfolding load_motor_list
  IsMotorList-of_load motors ms h =
      let (s, e, k) = >>=-eq-ok (load_motors motors (y.size motors) 0 none_seen) _ h in
      let loads = Loads-of_load_motors motors (y.size motors) 0 none_seen s e in
      let same : s.motors ≡ loads.ms =
        ap (λ u. u.motors) loads.result ∙ motors-pushed_all none_seen loads.ms in
      let given : s.motors ≡ ms = ground arith in
      let nonempty : is_empty s.motors ≡ false = ground arith in
      subst (IsMotorList motors) (sym same ∙ given) (record {
        count = loads.count;
        are = loads.are;
        can_distinct = (Fresh-nil_iff _).0 loads.can_fresh;
        mst_distinct = (Fresh-nil_iff _).0 loads.mst_fresh;
        nonempty = rw (← same) nonempty;
      })

  pub load-of_IsMotorList :
      (motors : N) (ms : List MotorConfig) → IsMotorList motors ms → load_motor_list motors ≡ ok ms
  unfolding load_motor_list
  load-of_IsMotorList motors ms h = rw (
    load_motors-of_Loads motors (y.size motors) 0 none_seen ms h.count h.are
        ((Fresh-nil_iff (can_ids_of ms)).1 h.can_distinct)
        ((Fresh-nil_iff (mst_ids_of ms)).1 h.mst_distinct),
    motors-pushed_all none_seen ms,
    h.nonempty,
  )
