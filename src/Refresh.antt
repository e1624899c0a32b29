-- ===== src/Refresh.antt =====
-- crates/runtime/src/accelerated_table/refresh.rs: the settings of a refresh, and
-- crates/runtime/src/component/dataset.rs: the formats of a time column.
--
-- A `Duration` is its number of nanoseconds.
pub mod Filter
pub mod Append
pub mod Agreement
use spiceai.Prelude.{ℕ, Bool, true, false, not, ◌&&◌, ◌||◌, Option, none, some, List, [], ◌∷◌}
use spiceai.Prelude.Tests.{if◌then◌else◌}
use spiceai.Prelude.Text.{Text}
use spiceai.Prelude.Result.{Result, ok, err}
use spiceai.Arrow.{DataType, Field, Schema, column_with_name}

pub data TimeFormat : Type 0 where
  timestamp timestamptz unix_seconds unix_millis iso8601 : TimeFormat

pub data RefreshMode : Type 0 where
  disabled full append changes : RefreshMode

pub record Refresh : Type 0 where
  pub time_column : Option Text
  pub time_format : Option TimeFormat
  pub check_interval : Option ℕ
  pub max_jitter : Option ℕ
  pub sql : Option Text
  pub mode : RefreshMode
  pub period : Option ℕ
  pub append_overlap : Option ℕ
  pub refresh_retry_enabled : Bool
  pub refresh_retry_max_attempts : Option ℕ

unfoldable pub default : Refresh
default = record {
  time_column = none;
  time_format = none;
  check_interval = none;
  max_jitter = none;
  sql = none;
  mode = RefreshMode.full;
  period = none;
  append_overlap = none;
  refresh_retry_enabled = false;
  refresh_retry_max_attempts = none;
}

unfoldable pub new : RefreshMode → Refresh
unfolding default
new mode = record default { mode = mode }

unfoldable pub time_column : Text → Refresh → Refresh
time_column c r = record r { time_column = some c }

unfoldable pub time_format : TimeFormat → Refresh → Refresh
time_format f r = record r { time_format = some f }

unfoldable pub check_interval : ℕ → Refresh → Refresh
check_interval d r = record r { check_interval = some d }

unfoldable pub max_jitter : ℕ → Refresh → Refresh
max_jitter d r = record r { max_jitter = some d }

unfoldable pub sql : Text → Refresh → Refresh
sql s r = record r { sql = some s }

unfoldable pub period : ℕ → Refresh → Refresh
period d r = record r { period = some d }

unfoldable pub append_overlap : ℕ → Refresh → Refresh
append_overlap d r = record r { append_overlap = some d }

unfoldable pub with_retry : Bool → Option ℕ → Refresh → Refresh
with_retry enabled max_attempts r = record r {
  refresh_retry_enabled = enabled;
  refresh_retry_max_attempts = max_attempts;
}

pub data Error : Type 0 where
  time_format_mismatch : Text → Text → TimeFormat → DataType → Error
  no_time_column_found : Text → Text → Error

-- `time_format.unwrap_or(TimeFormat::Timestamp)`
unfoldable pub expected_format : Option TimeFormat → TimeFormat
expected_format none = TimeFormat.timestamp
expected_format (some f) = f

-- The arms of the match on the type of the time column.
pub data TimeType : Type 0 where
  text number without_zone with_zone no_time : TimeType

unfoldable pub time_type : DataType → TimeType
time_type DataType.utf8 = text
time_type DataType.large_utf8 = text
time_type DataType.int8 = number
time_type DataType.int16 = number
time_type DataType.int32 = number
time_type DataType.int64 = number
time_type DataType.uint8 = number
time_type DataType.uint16 = number
time_type DataType.uint32 = number
time_type DataType.uint64 = number
time_type DataType.float16 = number
time_type DataType.float32 = number
time_type DataType.float64 = number
time_type (DataType.timestamp none) = without_zone
time_type (DataType.timestamp (some _)) = with_zone
time_type _ = no_time

unfoldable pub is_invalid : TimeType → TimeFormat → Bool
is_invalid text TimeFormat.iso8601 = false
is_invalid number TimeFormat.unix_seconds = false
is_invalid number TimeFormat.unix_millis = false
is_invalid without_zone TimeFormat.timestamp = false
is_invalid with_zone TimeFormat.timestamptz = false
is_invalid _ _ = true

unfoldable pub validate_time_format : Refresh → Text → Schema → Result Error (Unit {0})
unfolding expected_format
validate_time_format self dataset_name schema = elim self.time_column [
  | none ↦ ok tt
  | some column ↦ elim (column_with_name schema column) [
    | none ↦ err (no_time_column_found dataset_name column)
    | some field ↦
        if is_invalid (time_type field.data_type) (expected_format self.time_format)
        then err (
            time_format_mismatch dataset_name column (expected_format self.time_format)
              field.data_type)
        else ok tt
  ]
]
