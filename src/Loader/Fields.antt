-- ===== src/Loader/Fields.antt =====
-- What each field of the file has to hold for dm_openarm/src/yaml_loader.cpp to take it, whatever the path
-- that its error messages name.
use dmopenarm.Base.{ℕ, ◌^◌, ◌<◌, ◌≡◌, refl, ◌↔◌, true, some, ◌++◌, arith, length, ok, Result}
use dmopenarm.Base.Outcome.{>>=-eq-ok}
use dmopenarm.Text.{Text, codes, text_eq, text_eq_iff}
use dmopenarm.Text.Stoul.{stoul}
use dmopenarm.Types.{MotorModel, dm4310, dm8009, ControlMode, mit, MotorConfig}
use dmopenarm.Yaml.{Yaml}
use dmopenarm.Loader.{
  require_node, scalar_string, parse_uint32, parse_uint16, text_to_model, parse_model, parse_mode,
  field, parse_motor,
}

-- The name of a model in the file.
abbrev pub model_name : MotorModel → Text
model_name dm4310 = codes "DM4310"
model_name dm8009 = codes "DM8009"

text_to_model-model_name : (path : Text) (m : MotorModel) → text_to_model (model_name m) path ≡ ok m
unfolding text_to_model text_eq codes
text_to_model-model_name path dm4310 = refl
text_to_model-model_name path dm8009 = refl

model_name-of_text_to_model :
    (value path : Text) (m : MotorModel) → text_to_model value path ≡ ok m → value ≡ model_name m
unfolding text_to_model
model_name-of_text_to_model value path dm4310 h =
    ground (arith, text_eq_iff value (codes "DM4310"), text_eq_iff value (codes "DM8009"))
model_name-of_text_to_model value path dm8009 h =
    ground (arith, text_eq_iff value (codes "DM4310"), text_eq_iff value (codes "DM8009"))

text_to_model_iff :
    (value path : Text) (m : MotorModel)
    → (text_to_model value path ≡ ok m) ↔ (value ≡ model_name m)
text_to_model_iff value path m =
    (model_name-of_text_to_model value path m, λ e. rw e (text_to_model-model_name path m))

module _ {N : Type 0} ⦃y : Yaml N⦄ where
  pub record IsText (node : N) (text : Text) : Type 0 where
    pub is_scalar : y.is_scalar node ≡ true
    pub reads : y.scalar node ≡ text

  -- The whole of the scalar is one number of `std::stoul` below the bound.
  pub record IsNumber (bound : ℕ) (node : N) (n : ℕ) : Type 0 where
    pub is_scalar : y.is_scalar node ≡ true
    pub reads : stoul (y.scalar node) ≡ some (n, length (y.scalar node))
    pub fits : n < bound

  pub record IsModel (node : N) (m : MotorModel) : Type 0 where
    pub is_scalar : y.is_scalar node ≡ true
    pub reads : y.scalar node ≡ model_name m

  pub record IsMode (node : N) (m : ControlMode) : Type 0 where
    pub is_scalar : y.is_scalar node ≡ true
    pub reads : y.scalar node ≡ codes "MIT"

  -- The node has a child under the key, and the child holds the value.
  pub record Has {A : Type 0} (P : N → A → Type 0) (node : N) (key : Text) (a : A) : Type 0 where
    pub at : N
    pub there : y.child node key ≡ ok (some at)
    pub holds : P at a

  pub require_node_iff :
      (node : N) (key path : Text) (n : N)
      → (require_node node key path ≡ ok n) ↔ (y.child node key ≡ ok (some n))
  unfolding require_node
  require_node_iff node key path n = (λ h. ground arith, λ h. ground arith)

  pub scalar_string_iff :
      (node : N) (path text : Text) → (scalar_string node path ≡ ok text) ↔ IsText node text
  unfolding scalar_string
  scalar_string_iff node path text = (λ h. ground arith, λ h. ground arith)

  pub parse_uint32_iff :
      (node : N) (path : Text) (n : ℕ) → (parse_uint32 node path ≡ ok n) ↔ IsNumber (2 ^ 32) node n
  unfolding parse_uint32 scalar_string
  parse_uint32_iff node path n = (λ h. ground arith, λ h. ground arith)

  pub parse_uint16_iff :
      (node : N) (path : Text) (n : ℕ) → (parse_uint16 node path ≡ ok n) ↔ IsNumber (2 ^ 16) node n
  unfolding parse_uint16 parse_uint32 scalar_string
  parse_uint16_iff node path n = (λ h. ground arith, λ h. ground arith)

  pub parse_model_iff :
      (node : N) (path : Text) (m : MotorModel) → (parse_model node path ≡ ok m) ↔ IsModel node m
  unfolding parse_model scalar_string
  parse_model_iff node path m = (
    λ h. ground (arith, text_to_model_iff (y.scalar node) path m),
    λ h. ground (arith, text_to_model_iff (y.scalar node) path m),
  )

  pub parse_mode_iff :
      (node : N) (path : Text) (m : ControlMode) → (parse_mode node path ≡ ok m) ↔ IsMode node m
  unfolding parse_mode scalar_string
  parse_mode_iff node path mit = (
    λ h. ground (arith, text_eq_iff (y.scalar node) (codes "MIT")),
    λ h. ground (arith, text_eq_iff (y.scalar node) (codes "MIT")),
  )

  pub field_iff :
      {A : Type 0} (P : N → A → Type 0) (parse : N → Text → Result A)
      → ((node : N) (path : Text) (a : A) → (parse node path ≡ ok a) ↔ P node a)
      → (node : N) (key prefix : Text) (a : A)
      → (field parse node key prefix ≡ ok a) ↔ Has P node key a
  unfolding field
  field_iff P parse e node key prefix a = (
    λ h.
        let (at, there, found) = >>=-eq-ok (require_node node key prefix) _ h in
        record {
          at = at;
          there = (require_node_iff node key prefix at).0 there;
          holds = (e at (prefix ++ (codes "." ++ key)) a).0 found;
        },
    λ h.
        rw ((require_node_iff node key prefix h.at).1 h.there)
          ((e h.at (prefix ++ (codes "." ++ key)) a).1 h.holds),
  )

  -- A node of `motors`: its five fields.
  pub record IsMotor (node : N) (m : MotorConfig) : Type 0 where
    pub has_name : Has IsText node (codes "name") m.name
    pub has_model : Has IsModel node (codes "model") m.model
    pub has_mode : Has IsMode node (codes "mode") m.mode
    pub has_can_id : Has (IsNumber (2 ^ 16)) node (codes "can_id") m.can_id
    pub has_mst_id : Has (IsNumber (2 ^ 16)) node (codes "mst_id") m.mst_id

  parse_motor_iff_fields :
      (node : N) (prefix : Text) (m : MotorConfig)
      → (parse_motor node prefix ≡ ok m) ↔ (
          (field scalar_string node (codes "name") prefix ≡ ok m.name)
          × (field parse_model node (codes "model") prefix ≡ ok m.model)
          × (field parse_mode node (codes "mode") prefix ≡ ok m.mode)
          × (field parse_uint16 node (codes "can_id") prefix ≡ ok m.can_id)
          × (field parse_uint16 node (codes "mst_id") prefix ≡ ok m.mst_id))
  unfolding parse_motor
  parse_motor_iff_fields node prefix m = (λ h. ground arith, λ h. ground arith)

  pub parse_motor_iff :
      (node : N) (prefix : Text) (m : MotorConfig)
      → (parse_motor node prefix ≡ ok m) ↔ IsMotor node m
  parse_motor_iff node prefix m = (
    λ h.
        let (a, b, c, i, j) = (parse_motor_iff_fields node prefix m).0 h in
        record {
          has_name = name.0 a;
          has_model = model.0 b;
          has_mode = mode.0 c;
          has_can_id = can_id.0 i;
          has_mst_id = mst_id.0 j;
        },
    λ h. (parse_motor_iff_fields node prefix m).1 (
      name.1 h.has_name,
      model.1 h.has_model,
      mode.1 h.has_mode,
      can_id.1 h.has_can_id,
      mst_id.1 h.has_mst_id,
    ),
  )
    where
      number :
          (key : Text) (n : ℕ)
          → (field parse_uint16 node key prefix ≡ ok n) ↔ Has (IsNumber (2 ^ 16)) node key n
      number key = field_iff (IsNumber (2 ^ 16)) parse_uint16 parse_uint16_iff node key prefix

      name :
          (field scalar_string node (codes "name") prefix ≡ ok m.name)
          ↔ Has IsText node (codes "name") m.name
      name = field_iff IsText scalar_string scalar_string_iff node (codes "name") prefix m.name

      model :
          (field parse_model node (codes "model") prefix ≡ ok m.model)
          ↔ Has IsModel node (codes "model") m.model
      model = field_iff IsModel parse_model parse_model_iff node (codes "model") prefix m.model

      mode :
          (field parse_mode node (codes "mode") prefix ≡ ok m.mode)
          ↔ Has IsMode node (codes "mode") m.mode
      mode = field_iff IsMode parse_mode parse_mode_iff node (codes "mode") prefix m.mode

      can_id :
          (field parse_uint16 node (codes "can_id") prefix ≡ ok m.can_id)
          ↔ Has (IsNumber (2 ^ 16)) node (codes "can_id") m.can_id
      can_id = number (codes "can_id") m.can_id

      mst_id :
          (field parse_uint16 node (codes "mst_id") prefix ≡ ok m.mst_id)
          ↔ Has (IsNumber (2 ^ 16)) node (codes "mst_id") m.mst_id
      mst_id = number (codes "mst_id") m.mst_id
