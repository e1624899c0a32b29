-- ===== src/Refresh/Filter.antt =====
-- crates/runtime/src/datafusion/filter_converter.rs: `TimestampFilterConvert`.
--
-- A filter is the comparison that `binary_expr` makes. Of a literal that is cast to `i64` the bit
-- pattern is given, a number below 2^64.
use spiceai.Prelude.{ℕ, ◌/◌, ◌%◌, ◌^◌, Option, none, some}
use spiceai.Prelude.Text.{Text}
use spiceai.Arrow.{DataType, Field}
use spiceai.Refresh.{TimeFormat}

pub data ExprTimeFormat : Type 0 where
  iso8601 : ExprTimeFormat
  unix_timestamp : ℕ → ExprTimeFormat
  timestamp : ExprTimeFormat
  timestamptz : Option Text → ExprTimeFormat

pub record TimestampFilterConvert : Type 0 where
  pub time_column : Text
  pub time_format : ExprTimeFormat

pub data Operator : Type 0 where
  gt gt_eq lt lt_eq : Operator

pub data Expr : Type 0 where
  -- column op number
  compare_number : Text → Operator → ℕ → Expr
  -- cast(column, nanoseconds) op literal with a time zone
  compare_timestamp : Text → Operator → ℕ → Option Text → Expr

unfoldable pub scale : Option TimeFormat → ℕ
scale (some TimeFormat.unix_millis) = 1_000_000
scale _ = 1_000_000_000

-- The match on the type of the field; `none` is a type that is not handled.
unfoldable pub expr_time_format : DataType → Option TimeFormat → Option ExprTimeFormat
unfolding scale
expr_time_format DataType.int8 f = some (unix_timestamp (scale f))
expr_time_format DataType.int16 f = some (unix_timestamp (scale f))
expr_time_format DataType.int32 f = some (unix_timestamp (scale f))
expr_time_format DataType.int64 f = some (unix_timestamp (scale f))
expr_time_format DataType.uint8 f = some (unix_timestamp (scale f))
expr_time_format DataType.uint16 f = some (unix_timestamp (scale f))
expr_time_format DataType.uint32 f = some (unix_timestamp (scale f))
expr_time_format DataType.uint64 f = some (unix_timestamp (scale f))
expr_time_format DataType.float16 f = some (unix_timestamp (scale f))
expr_time_format DataType.float32 f = some (unix_timestamp (scale f))
expr_time_format DataType.float64 f = some (unix_timestamp (scale f))
expr_time_format DataType.date32 f = some ExprTimeFormat.timestamp
expr_time_format DataType.date64 f = some ExprTimeFormat.timestamp
expr_time_format DataType.time32 f = some ExprTimeFormat.timestamp
expr_time_format DataType.time64 f = some ExprTimeFormat.timestamp
expr_time_format (DataType.timestamp tz) f = some (ExprTimeFormat.timestamptz tz)
expr_time_format DataType.utf8 f = some ExprTimeFormat.iso8601
expr_time_format DataType.large_utf8 f = some ExprTimeFormat.iso8601
expr_time_format _ f = none

unfoldable pub create :
    Option Field → Option Text → Option TimeFormat → Option TimestampFilterConvert
unfolding expr_time_format
create none time_column time_format = none
create (some field) none time_format = none
create (some field) (some column) time_format =
    elim (expr_time_format field.data_type time_format) [
      | none ↦ none
      | some format ↦ some (record { time_column = column; time_format = format })
    ]

convert_to : ExprTimeFormat → Text → ℕ → Operator → Expr
convert_to (unix_timestamp scale) column nanos op =
    compare_number column op ((nanos / scale) % 2 ^ 64)
convert_to ExprTimeFormat.timestamp column nanos op =
    compare_timestamp column op (nanos % 2 ^ 64) none
convert_to ExprTimeFormat.iso8601 column nanos op =
    compare_timestamp column op (nanos % 2 ^ 64) none
convert_to (ExprTimeFormat.timestamptz tz) column nanos op =
    compare_timestamp column op (nanos % 2 ^ 64) tz

unfoldable pub convert : TimestampFilterConvert → ℕ → Operator → Expr
unfolding convert_to
convert self nanos op = convert_to self.time_format self.time_column nanos op
