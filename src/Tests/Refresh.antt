-- ===== src/Tests/Refresh.antt =====
-- The theorems on refreshes at concrete inputs: a table with a time column of milliseconds.
use spiceai.Prelude.{true, none, some, [], ◌∷◌, ◌≡◌, ◌≢◌, refl}
use spiceai.Prelude.Text.{Text, codes, ◌==◌}
use spiceai.Prelude.Result.{Result, ok}
use spiceai.Arrow.{DataType, Field, Schema, column_with_name}
use spiceai.Refresh.{Refresh, RefreshMode, TimeFormat, validate_time_format}
use spiceai.Refresh.Filter.{TimestampFilterConvert}
use spiceai.Refresh.Append
use spiceai.Refresh.Append.{pos, Batches, timestamp_nanos_for_append_query}
use spiceai.Refresh.Agreement.{append_query-ne-panic}
use spiceai.RefreshTask.Load.{get_filter_converter, update_filters}
use spiceai.RefreshTask.Filtered.{from_time, filters_from, update_filters-validated}

abbrev at : Text
at = codes "at"

abbrev field : Field
field = record { name = at; data_type = DataType.int64 }

abbrev schema : Schema
schema = field ∷ []

abbrev settings : Refresh
settings = record {
  time_column = some at;
  time_format = some TimeFormat.unix_millis;
  check_interval = none;
  max_jitter = none;
  sql = none;
  mode = RefreshMode.append;
  period = none;
  append_overlap = some 2_000_000_000;
  refresh_retry_enabled = true;
  refresh_retry_max_attempts = none;
}

abbrev max_timestamp : Text → Result Append.Error Batches
max_timestamp column = ok (some (pos 5_000 ∷ []) ∷ [])

valid : validate_time_format settings (codes "t") schema ≡ ok tt
unfolding validate_time_format column_with_name ◌==◌ spiceai.Refresh.is_invalid
    spiceai.Refresh.time_type
valid = refl

append_query-ne-panic_example :
    timestamp_nanos_for_append_query settings (codes "t") schema max_timestamp ≢ none
append_query-ne-panic_example = append_query-ne-panic settings (codes "t") schema max_timestamp

update_filters-validated_example :
    (converter : TimestampFilterConvert) × (get_filter_converter schema settings ≡ some converter)
    × (update_filters (get_filter_converter schema settings) none settings.period 90_000
        ≡ filters_from converter (from_time none settings.period 90_000))
update_filters-validated_example =
    update_filters-validated settings (codes "t") schema at none 90_000 refl valid
