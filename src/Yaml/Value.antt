-- ===== src/Yaml/Value.antt =====
-- What internal/yamlite/yamlite.go returns: its map[string]any, []any and scalars as three data
-- types, and its errors with the line they name. A number with a fraction or an exponent, a
-- float64, is of a type that is a parameter.
use distributed_test_runner.Base.{ℕ, Bool, if◌then◌else◌}
use distributed_test_runner.Base.Int.{ℤ}
use distributed_test_runner.Yaml.Bytes.{Bytes, bytes_eq}

pub data Problem : Type 0 where
  tabs indentation item_for_key no_colon no_item unterminated_flow flow_mapping : ℕ → Problem
  bad_quoted unterminated_string not_quoted : Bytes → Problem
  bad_escape : Problem
  unfinished : Problem

mutual
  pub data Value (F : Type 0) : Type 0 where
    null : Value F
    bool : Bool → Value F
    int : ℤ → Value F
    float : F → Value F
    text : Bytes → Value F
    sequence : Values F → Value F
    mapping : Fields F → Value F

  pub data Values (F : Type 0) : Type 0 where
    no_items : Values F
    item : Value F → Values F → Values F

  pub data Fields (F : Type 0) : Type 0 where
    no_fields : Fields F
    field : Bytes → Value F → Fields F → Fields F

module _ {F : Type 0} where
  -- append(out, v)
  unfoldable pub append_item : Values F → Value F → Values F
  append_item no_items v = item v no_items
  append_item (item w ws) v = item w (append_item ws v)

  -- m[key] = v
  unfoldable pub set_field : Bytes → Value F → Fields F → Fields F
  unfolding bytes_eq
  set_field key v no_fields = field key v no_fields
  set_field key v (field other w rest) =
      if bytes_eq other key then field key v rest else field other w (set_field key v rest)

  -- for k, v := range more { m[k] = v }
  unfoldable pub set_fields : Fields F → Fields F → Fields F
  unfolding set_field
  set_fields no_fields m = m
  set_fields (field key v more) m = set_fields more (set_field key v m)
