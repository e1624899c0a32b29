-- ===== src/Acceleration/Constraints.antt =====
-- crates/runtime/src/component/dataset/acceleration/constraints.rs: the columns of the indexes, and
-- the constraints of the accelerated table.
--
-- `columns` are the names of a column reference, `flattened` the names of the flattened fields of a
-- schema, and `build` what DataFusion makes of the constraints for a schema.
pub mod Columns
use spiceai.Prelude.{
  ℕ, ◌≡◌, ◌≢◌, ◌⊎◌, inl, inr, refl, sym, ap, ◌∙◌, Bool, true, false, ◌&&◌, Option, none, some, List,
  [], ◌∷◌, ◌++◌, map, arith,
}
use spiceai.Prelude.Lists.{length, All, Any, here, there}
use spiceai.Prelude.Tests.{if◌then◌else◌, Option-cases}
use spiceai.Prelude.Text.{Text, codes}
use spiceai.Prelude.Result.{Result, ok, err}
use spiceai.Arrow.{Field, Schema, column_with_name}
use spiceai.Acceleration.{IndexType, Acceleration}
use spiceai.Acceleration.OnConflict.{unique_columns, key_columns, on_conflict_targets}

pub data IndexError : Type 0 where
  index_column_not_found : Text → Text → IndexError

-- `TableConstraint`, with the names of its columns.
pub data TableConstraint : Type 0 where
  unique_key : List Text → TableConstraint
  primary_key : List Text → TableConstraint

-- `join(", ")`
unfoldable pub join : List Text → Text
join [] = []
join (s ∷ []) = s
join (s ∷ t ∷ ts) = s ++ (codes ", " ++ join (t ∷ ts))

unfoldable pub is_empty : {A : Type 0} → List A → Bool
is_empty [] = true
is_empty (x ∷ xs) = false

unfoldable pub is_none : {A : Type 0} → Option A → Bool
is_none none = true
is_none (some x) = false

module _ (flattened : Schema → List Text) (schema : Schema) where
  unfoldable pub valid_columns : Text
  valid_columns = join (flattened schema)

  -- The inner loop of `validate_indexes`: the columns of one index.
  unfoldable pub validate_columns : List Text → Result IndexError (Unit {0})
  validate_columns [] = ok tt
  validate_columns (c ∷ cs) = elim (column_with_name schema c) [
    | none ↦ err (index_column_not_found c valid_columns)
    | some field ↦ validate_columns cs
  ]

  unfoldable pub validate_all : List (List Text) → Result IndexError (Unit {0})
  validate_all [] = ok tt
  validate_all (cs ∷ css) = elim (validate_columns cs) [ err e ↦ err e | ok u ↦ validate_all css ]

module _ {Column : Type 0} (columns : Column → List Text) where
  unfoldable pub validate_indexes :
      (Schema → List Text) → Acceleration Column → Schema → Result IndexError (Unit {0})
  validate_indexes flattened self schema =
      validate_all flattened schema (map (λ (i : Column × IndexType). columns i.0) self.indexes)

  -- The loop over the indexes.
  unfoldable pub index_constraints : List (Column × IndexType) → List TableConstraint
  index_constraints [] = []
  index_constraints ((column, IndexType.enabled) ∷ indexes) = index_constraints indexes
  index_constraints ((column, IndexType.unique) ∷ indexes) =
      unique_key (columns column) ∷ index_constraints indexes

  unfoldable pub key_constraints : Option Column → List TableConstraint
  key_constraints none = []
  key_constraints (some key) = primary_key (columns key) ∷ []

  unfoldable pub table_constraints :
      {E Constraints : Type 0}
      → (List TableConstraint → Schema → Result E Constraints)
      → Acceleration Column
      → Schema
      → Result E (Option Constraints)
  table_constraints build self schema =
      if is_empty self.indexes && is_none self.primary_key
      then ok none
      else elim (build (index_constraints self.indexes ++ key_constraints self.primary_key)
          schema) [ ok constraints ↦ ok (some constraints) | err e ↦ err e ]
