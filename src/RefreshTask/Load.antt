-- ===== src/RefreshTask/Load.antt =====
-- crates/runtime/src/accelerated_table/refresh_task.rs: how a refresh gets its data.
--
-- A result is an `Option` for the panics of the code, `none`: a mode without refreshes, and what
-- `Refresh.Append` counts as such.
use spiceai.Prelude.{ℕ, ◌-◌, Bool, Option, none, some, List, [], ◌∷◌}
use spiceai.Prelude.Text.{Text, codes}
use spiceai.Prelude.Result.{Result, ok, err, ◌>>=◌, map_err}
use spiceai.Arrow.{Schema, column_with_name}
use spiceai.MemTable.{RecordBatch}
use spiceai.Refresh.{Refresh, RefreshMode}
use spiceai.Refresh.Filter.{Expr, TimestampFilterConvert, create, convert, gt}
use spiceai.Refresh.Append.{Error as AppendError, Batches, timestamp_nanos_for_append_query}
use spiceai.Refresh.Append
use spiceai.RefreshTask.{
  Outside, State, StreamingDataUpdate, UpdateType, Stream, Error, latest_timestamp,
  unable_to_scan_table_provider, RetryError, permanent, transient, retry_from_df_error, refreshing,
  mark, get_data,
}
use spiceai.RefreshTask.Records.{filter_records}

-- The result of a step that may panic, with the state behind it.
abbrev pub Outcome : Type 0 → Type 0 → Type 0
Outcome World A = Option (Result RetryError A × State World)

-- `refresh.time_column.as_deref().unwrap_or_default()`
unfoldable pub time_column_or_empty : Option Text → Text
time_column_or_empty none = []
time_column_or_empty (some column) = column

unfoldable pub get_filter_converter : Schema → Refresh → Option TimestampFilterConvert
get_filter_converter schema refresh =
    create (column_with_name schema (time_column_or_empty refresh.time_column)) refresh.time_column
      refresh.time_format

-- The filters of a full or an append update at a time in nanoseconds.
unfoldable pub update_filters : Option TimestampFilterConvert → Option ℕ → Option ℕ → ℕ → List Expr
update_filters none overwrite_timestamp_in_nano period now = []
update_filters (some converter) (some timestamp) period now = convert converter timestamp gt ∷ []
update_filters (some converter) none none now = []
update_filters (some converter) none (some period) now = convert converter (now - period) gt ∷ []

-- The match on the mode in `get_data_update`.
unfoldable pub update_type : RefreshMode → Option UpdateType
update_type RefreshMode.disabled = none
update_type RefreshMode.full = some UpdateType.overwrite
update_type RefreshMode.append = some UpdateType.append
update_type RefreshMode.changes = none

-- The columns and the comparator of `filter_records`.
pub record Comparison (Row Cell : Type 0) : Type 0 where
  pub column : ℕ → Row → Cell
  pub make_comparator : Schema → Option (List Cell → List Cell → Bool)

module _ {World Frame Row Cell : Type 0} (outside : Outside World Frame Row)
    (comparison : Comparison Row Cell) where
  -- The stream without the rows that exist. The stream ends behind an error that it passes on by `?`.
  unfoldable pub filtered_stream : List (RecordBatch Row) → Stream Row → Stream Row
  filtered_stream existing_records [] = []
  filtered_stream existing_records (err e ∷ items) = err e ∷ []
  filtered_stream existing_records (ok batch ∷ items) =
      let rest = filtered_stream existing_records items in
      elim (filter_records comparison.column comparison.make_comparator batch existing_records
        outside.federated_base_schema) [
          | none ↦ err (codes "failed to filter updates") ∷ rest
          | some b ↦ ok b ∷ rest
        ]

module _ {World Frame Row : Type 0} (outside : Outside World Frame Row) where
  unfoldable pub accelerator_df : World → Refresh → Result Text Frame
  accelerator_df world refresh = elim refresh.sql [
    | none ↦ outside.read_table world
    | some query ↦ outside.sql world query
  ]

  -- The query of `timestamp_nanos_for_append_query` for the latest time.
  unfoldable pub max_timestamp : World → Refresh → Text → Result AppendError Batches
  max_timestamp world refresh column =
      map_err Append.unable_to_scan_table_provider (accelerator_df world refresh) >>= λ df.
      outside.max_timestamp world df column

  unfoldable pub latest : World → Refresh → Text → Option (Result Error (Option ℕ))
  latest world refresh dataset_name =
      elim (timestamp_nanos_for_append_query refresh dataset_name outside.accelerator_schema
        (max_timestamp world refresh)) [ none ↦ none | some r ↦ some (map_err latest_timestamp r) ]

  -- What `get_data_update` makes of the update type and of the data.
  unfoldable pub update_of :
      Option UpdateType
      → Result Text (Schema × Stream Row)
      → Option (Result RetryError (StreamingDataUpdate Row))
  update_of none got = none
  update_of (some kind) (err e) = some (err (retry_from_df_error outside.is_retriable_error e))
  update_of (some kind) (ok (schema, stream)) =
      some (ok (record { schema = schema; data_ = stream; update_type = kind }))

  unfoldable pub get_data_update :
      World → Refresh → List Expr → Option (Result RetryError (StreamingDataUpdate Row))
  get_data_update world refresh filters =
      update_of (update_type refresh.mode) (
        map_err outside.check_and_mark_retriable_error (get_data outside world refresh.sql filters))

  -- With its report of the status, and of the state behind it.
  unfoldable pub get_full_or_incremental_append_update :
      Refresh → Option ℕ → State World → Outcome World (StreamingDataUpdate Row)
  get_full_or_incremental_append_update refresh overwrite_timestamp_in_nano s =
      elim (get_data_update s.world refresh (
        update_filters (get_filter_converter outside.federated_schema refresh)
          overwrite_timestamp_in_nano refresh.period (outside.now s.world))) [
            | none ↦ none
            | some r ↦ some (r, mark refreshing s)
          ]

  -- The rows of the accelerator behind a time.
  unfoldable pub existing_records :
      World → Refresh → TimestampFilterConvert → ℕ → Result Text (List (RecordBatch Row))
  existing_records world refresh converter value = accelerator_df world refresh >>= λ df.
      outside.filter df (convert converter value gt) >>= outside.collect world

module _ {World Frame Row Cell : Type 0} (outside : Outside World Frame Row)
    (comparison : Comparison Row Cell) where
  -- `?` makes an error here one to retry (`From` of `backoff::Error`).
  unfoldable pub except_existing_records_from :
      World
      → Refresh
      → Text
      → StreamingDataUpdate Row
      → Option (Result RetryError (StreamingDataUpdate Row))
  except_existing_records_from world refresh dataset_name update =
      elim (latest outside world refresh dataset_name) [
        | none ↦ none
        | some (err e) ↦ some (err (transient e))
        | some (ok none) ↦ some (ok update)
        | some (ok (some value)) ↦ elim (get_filter_converter outside.federated_schema refresh) [
          | none ↦ some (ok update)
          | some converter ↦ elim (existing_records outside world refresh converter value) [
            | err e ↦ some (err (transient (unable_to_scan_table_provider e)))
            | ok existing ↦ some (
                ok (record update {
                  data_ = filtered_stream outside comparison existing update.data_;
                }))
          ]
        ]
      ]

  unfoldable pub get_incremental_append_update :
      Refresh → Text → State World → Outcome World (StreamingDataUpdate Row)
  get_incremental_append_update refresh dataset_name s =
      elim (latest outside s.world refresh dataset_name) [
        | none ↦ none
        | some (err e) ↦ some (err (permanent e), s)
        | some (ok timestamp) ↦
            elim (get_full_or_incremental_append_update outside refresh timestamp s) [
              | none ↦ none
              | some (err e, s') ↦ some (err e, s')
              | some (ok data_, s') ↦
                  elim (except_existing_records_from s'.world refresh dataset_name data_) [
                    | none ↦ none
                    | some r ↦ some (r, s')
                  ]
            ]
      ]
