-- ===== src/Refresh/Append.antt =====
-- crates/runtime/src/accelerated_table/refresh_task.rs: which rows an append refresh asks for.
--
-- What the accelerator answers to the query for the latest timestamp is a parameter: the batches,
-- each with the values of its first column, `none` where that is no column of nanoseconds.
use spiceai.Prelude.{
  ℕ, suc, ◌-◌, ◌*◌, ◌%◌, ◌^◌, Bool, true, false, Option, none, some, List, [], ◌∷◌,
}
use spiceai.Prelude.Tests.{if◌then◌else◌, ltb}
use spiceai.Prelude.Text.{Text}
use spiceai.Prelude.Result.{Result, ok, err}
use spiceai.Arrow.{DataType, Schema, column_with_name}
use spiceai.Refresh.{Error as RefreshError, Refresh, TimeFormat, validate_time_format}

-- An `i64`; `negsuc n` is -(n + 1).
pub data ℤ : Type 0 where
  pos : ℕ → ℤ
  negsuc : ℕ → ℤ

-- `as u128`
unfoldable pub as_u128 : ℤ → ℕ
as_u128 (pos n) = n
as_u128 (negsuc n) = 2 ^ 128 - suc n

pub data Error : Type 0 where
  invalid_time_column_time_format : RefreshError → Error
  failed_to_find_latest_timestamp : Error
  unable_to_scan_table_provider : Text → Error
  failed_to_query_latest_timestamp : Text → Error

abbrev pub Batches : Type 0
Batches = List (Option (List ℤ))

unfoldable pub is_integer : DataType → Bool
is_integer DataType.int8 = true
is_integer DataType.int16 = true
is_integer DataType.int32 = true
is_integer DataType.int64 = true
is_integer DataType.uint8 = true
is_integer DataType.uint16 = true
is_integer DataType.uint32 = true
is_integer DataType.uint64 = true
is_integer _ = false

-- The value of an integer column in nanoseconds; `none` is the `unreachable!`.
unfoldable pub scaled : Option TimeFormat → ℕ → Option ℕ
scaled (some TimeFormat.unix_millis) value = some ((value * 1_000_000) % 2 ^ 128)
scaled (some TimeFormat.unix_seconds) value = some ((value * 1_000_000_000) % 2 ^ 128)
scaled _ value = none

unfoldable pub in_nanos : DataType → Option TimeFormat → ℕ → Option ℕ
unfolding scaled is_integer
in_nanos data_type format value = if is_integer data_type then scaled format value else some value

-- `refresh_append_overlap_nanos`
unfoldable pub overlap_nanos : Refresh → ℕ
overlap_nanos refresh = elim refresh.append_overlap [ none ↦ 0 | some d ↦ d ]

unfoldable pub minus_overlap : ℕ → ℕ → ℕ
minus_overlap overlap value = if ltb value overlap then 0 else value - overlap

-- From the first value of the answer on. `none` is a panic.
unfoldable pub from_value : Refresh → Schema → Text → ℕ → Option (Result Error (Option ℕ))
from_value refresh schema column value = elim (column_with_name schema column) [
  | none ↦ some (err failed_to_find_latest_timestamp)
  | some field ↦ elim (in_nanos field.data_type refresh.time_format value) [
    | none ↦ none
    | some nanos ↦ some (ok (some (minus_overlap (overlap_nanos refresh) nanos)))
  ]
]

unfoldable pub from_batches : Refresh → Schema → Text → Batches → Option (Result Error (Option ℕ))
from_batches refresh schema column [] = some (ok none)
from_batches refresh schema column (none ∷ _) = some (err failed_to_find_latest_timestamp)
from_batches refresh schema column (some [] ∷ _) = some (ok none)
from_batches refresh schema column (some (v ∷ _) ∷ _) = from_value refresh schema column (as_u128 v)

unfoldable pub timestamp_nanos_for_append_query :
    Refresh → Text → Schema → (Text → Result Error Batches) → Option (Result Error (Option ℕ))
unfolding from_batches from_value
timestamp_nanos_for_append_query refresh dataset_name schema max_timestamp =
    elim (validate_time_format refresh dataset_name schema) [
      | err e ↦ some (err (invalid_time_column_time_format e))
      | ok _ ↦ elim refresh.time_column [
        | none ↦ some (err failed_to_find_latest_timestamp)
        | some column ↦ elim (max_timestamp column) [
          | err e ↦ some (err e)
          | ok batches ↦ from_batches refresh schema column batches
        ]
      ]
    ]
