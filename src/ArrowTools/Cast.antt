-- ===== src/ArrowTools/Cast.antt =====
-- crates/arrow_tools/src/record_batch.rs: `try_cast_to`.
--
-- The batches, columns and fields of the `arrow` crates, and what is asked of them, are a parameter.
use spiceai.Prelude.{ℕ, Bool, Option, some, List, [], ◌∷◌}
use spiceai.Prelude.Tests.{if◌then◌else◌}
use spiceai.Prelude.Result.{Result, ok, err, ◌>>=◌, map_err}
use spiceai.Prelude.Text.{Text}

pub data Error (E : Type 0) : Type 0 where
  unable_to_convert_record_batch : E → Error E
  field_not_nullable : Text → Error E

-- The `arrow` crates. `cast` goes to the data type of the field.
pub record Arrow (Field Column Batch E : Type 0) : Type 0 where
  pub name : Field → Text
  pub field_with_name : List Field → Text → Option Field
  pub is_nullable : Field → Bool
  pub field_contains : Field → Field → Bool
  pub schema_contains : List Field → List Field → Bool
  pub schema : Batch → List Field
  pub column_by_name : Batch → Text → Option Column
  pub num_rows : Batch → ℕ
  pub with_schema : Batch → List Field → Result E Batch
  pub cast : Column → Field → Result E Column
  pub new_null_array : Field → ℕ → Column
  pub try_new : List Field → List Column → Result E Batch

module _ {Field Column Batch E : Type 0} (arrow : Arrow Field Column Batch E) where
  unfoldable pub column_of : Batch → Field → Option Field → Option Column → Result (Error E) Column
  column_of batch field (some existing_field) (some column) =
      if arrow.field_contains field existing_field
      then ok column
      else map_err unable_to_convert_record_batch (arrow.cast column field)
  column_of batch field _ _ =
      if arrow.is_nullable field
      then ok (arrow.new_null_array field (arrow.num_rows batch))
      else err (field_not_nullable (arrow.name field))

  unfoldable pub cols : Batch → List Field → Result (Error E) (List Column)
  cols batch [] = ok []
  cols batch (field ∷ fields) =
      column_of batch field (arrow.field_with_name (arrow.schema batch) (arrow.name field))
        (arrow.column_by_name batch (arrow.name field))
      >>= λ column. (cols batch fields >>= λ columns. ok (column ∷ columns))

  unfoldable pub try_cast_to : Batch → List Field → Result (Error E) Batch
  try_cast_to record_batch schema =
      if arrow.schema_contains schema (arrow.schema record_batch)
      then map_err unable_to_convert_record_batch (arrow.with_schema record_batch schema)
      else (cols record_batch schema >>= λ columns.
          map_err unable_to_convert_record_batch (arrow.try_new schema columns))
