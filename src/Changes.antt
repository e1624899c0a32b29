-- ===== src/Changes.antt =====
-- crates/runtime/src/accelerated_table/refresh_task/changes.rs and crates/data_components/src/cdc.rs:
-- change data capture.
--
-- A `ChangeBatch` is the list of its rows, each with the code of its operation, its primary keys and
-- its data, a batch of one row. The checks of the schema of a change batch are not modelled.
pub mod Replay
pub mod Commits
use spiceai.Prelude.{ℕ, zero, suc, Bool, true, false, Option, none, some, List, [], ◌∷◌, map}
use spiceai.Prelude.Tests.{if◌then◌else◌}
use spiceai.Prelude.Text.{Text, codes, ◌==◌}
use spiceai.Prelude.Result.{Result, ok, err, ◌>>=◌, ◌>>◌, map_err}
use spiceai.Arrow.{DataType, Field, Schema}
use spiceai.MemTable.{RecordBatch}

pub data ChangeOperation : Type 0 where
  create update delete read truncate : ChangeOperation
  unknown : Text → ChangeOperation

-- `ChangeOperation::from`
unfoldable pub operation : Text → ChangeOperation
operation op =
    if op == codes "c"
    then create
    else if op == codes "u"
    then update
    else if op == codes "d"
    then delete
    else if op == codes "r"
    then read
    else if op == codes "t"
    then truncate
    else unknown op

pub record Change (Row : Type 0) : Type 0 where
  pub op : Text
  pub primary_keys : List Text
  pub data_ : RecordBatch Row

-- A value of a primary key, as a literal.
pub data Literal : Type 0 where
  int32 int64 : ℕ → Literal
  utf8 : Text → Literal

-- `col(key).eq(value)`
pub record Equation : Type 0 where
  pub key : Text
  pub value : Literal

pub data Error : Type 0 where
  accelerated_table_doesnt_support_delete : Error
  failed_to_write_data : Text → Error
  expected_schema_to_have_field : Text → Error
  array_data_type_mismatch : Text → Error
  primary_key_type_not_yet_supported : DataType → Error

-- The accelerator's table. `value` is the first value of a column as a literal of its type, if it has
-- an array of that type; a write has a plan, which may be refused, and its execution.
pub record Accelerator (World Row : Type 0) : Type 0 where
  pub supports_delete : Bool
  pub value : RecordBatch Row → ℕ → Option Literal
  pub delete_from : World → List Equation → Result Text (Unit {0})
  pub execute_delete : World → List Equation → Result Text (Unit {0}) × World
  pub insert_into : World → RecordBatch Row → Result Text (Unit {0})
  pub execute_insert : World → RecordBatch Row → Result Text (Unit {0}) × World

-- `column_with_name`, with the index.
unfoldable pub column_with_name : Schema → Text → Option (ℕ × Field)
column_with_name [] name = none
column_with_name (f ∷ fs) name =
    let rest = column_with_name fs name in
    if f.name == name
    then some (zero, f)
    else elim rest [ none ↦ none | some (i, g) ↦ some (suc i, g) ]

-- The types of a primary key that `get_primary_key_value` handles.
unfoldable pub is_key_type : DataType → Bool
is_key_type DataType.int32 = true
is_key_type DataType.int64 = true
is_key_type DataType.utf8 = true
is_key_type _ = false

module _ {World Row : Type 0} (accelerator : Accelerator World Row) where
  unfoldable pub get_primary_key_value : RecordBatch Row → Text → Result Error Literal
  get_primary_key_value data_ key = elim (column_with_name data_.schema key) [
    | none ↦ err (expected_schema_to_have_field key)
    | some (idx, field) ↦
        if is_key_type field.data_type
        then elim (accelerator.value data_ idx) [
          | none ↦ err (array_data_type_mismatch key)
          | some value ↦ ok value
        ]
        else err (primary_key_type_not_yet_supported field.data_type)
  ]

  unfoldable pub get_delete_where_expr : RecordBatch Row → List Text → Result Error (List Equation)
  get_delete_where_expr data_ [] = ok []
  get_delete_where_expr data_ (key ∷ keys) = get_primary_key_value data_ key >>= λ value.
      (get_delete_where_expr data_ keys >>= λ exprs.
      ok (record { key = key; value = value } ∷ exprs))

  -- `get_primary_key_log_fmt`, of which only the error matters.
  unfoldable pub get_primary_key_log_fmt : RecordBatch Row → List Text → Result Error (Unit {0})
  get_primary_key_log_fmt data_ [] = ok tt
  get_primary_key_log_fmt data_ (key ∷ keys) =
      get_primary_key_value data_ key >>= λ _. get_primary_key_log_fmt data_ keys

  -- The execution of a plan, with its error as this code's.
  unfoldable pub executed : Result Text (Unit {0}) × World → Result Error (Unit {0}) × World
  executed (r, w) = (map_err failed_to_write_data r, w)

  unfoldable pub write_delete : Change Row → World → Result Error (Unit {0}) × World
  write_delete change w =
      elim (get_primary_key_log_fmt change.data_ change.primary_keys
        >> get_delete_where_expr change.data_ change.primary_keys) [
          | err e ↦ (err e, w)
          | ok exprs ↦ elim (accelerator.delete_from w exprs) [
            | err e ↦ (err (failed_to_write_data e), w)
            | ok _ ↦ executed (accelerator.execute_delete w exprs)
          ]
        ]

  -- What a message of level DEBUG evaluates: nothing, unless that level is on.
  unfoldable pub debug_message : Bool → Change Row → Result Error (Unit {0})
  debug_message debug change = elim change.primary_keys [
    | [] ↦ ok tt
    | _ ↦ if debug then get_primary_key_log_fmt change.data_ change.primary_keys else ok tt
  ]

  unfoldable pub write_upsert : Bool → Change Row → World → Result Error (Unit {0}) × World
  write_upsert debug change w = elim (debug_message debug change) [
    | err e ↦ (err e, w)
    | ok _ ↦ elim (accelerator.insert_into w change.data_) [
      | err e ↦ (err (failed_to_write_data e), w)
      | ok _ ↦ executed (accelerator.execute_insert w change.data_)
    ]
  ]

  -- The match on the operation of a row.
  unfoldable pub write_operation :
      ChangeOperation → Bool → Change Row → World → Result Error (Unit {0}) × World
  write_operation delete debug change w = write_delete change w
  write_operation create debug change w = write_upsert debug change w
  write_operation update debug change w = write_upsert debug change w
  write_operation read debug change w = write_upsert debug change w
  write_operation truncate debug change w = (ok tt, w)
  write_operation (unknown _) debug change w = (ok tt, w)

  unfoldable pub write_row : Bool → Change Row → World → Result Error (Unit {0}) × World
  write_row debug change w = write_operation (operation change.op) debug change w

  -- The loop over the rows, to the first error.
  unfoldable pub write_rows : Bool → List (Change Row) → World → Result Error (Unit {0}) × World
  write_rows debug [] w = (ok tt, w)
  write_rows debug (change ∷ changes) w =
      let (r, w') = write_row debug change w in
      let rest = write_rows debug changes w' in elim r [ err e ↦ (err e, w') | ok _ ↦ rest ]

  unfoldable pub write_change : Bool → List (Change Row) → World → Result Error (Unit {0}) × World
  write_change debug batch w =
      if accelerator.supports_delete
      then write_rows debug batch w
      else (err accelerated_table_doesnt_support_delete, w)
