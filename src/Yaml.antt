-- ===== src/Yaml.antt =====
-- What dm_openarm/src/yaml_loader.cpp uses of yaml-cpp, which is not part of the repository: a parsed document
-- as nodes. Each operation is yaml-cpp's; none of its behaviour is assumed beyond its type.
use dmopenarm.Base.{ℕ, Bool, Option, Result}
use dmopenarm.Text.{Text}

pub record Yaml (N : Type 0) : Type 0 where
  -- `YAML::LoadFile(path)`.
  pub load_file : Text → Result N
  -- `node[key]` on a constant node: a child, none if it is not defined, or `YAML::BadSubscript`.
  pub child : N → Text → Result (Option N)
  -- `node[i]` for an index below `size()`.
  pub item : N → ℕ → N
  pub size : N → ℕ
  pub is_sequence : N → Bool
  pub is_scalar : N → Bool
  pub scalar : N → Text
