-- ===== src/RefreshTask.antt =====
-- crates/runtime/src/accelerated_table/refresh_task.rs: the execution of a refresh, and of it here
-- the data model: crates/runtime/src/status.rs, dataupdate.rs and `get_data` of dataconnector.rs.
--
-- The query engine and the accelerator's table are parameters (`Outside`) on the state `World` of
-- everything outside; a `DataFusionError` is a text. A stream is the list of what it yields.
pub mod Records
pub mod Load
pub mod Write
pub mod Run
pub mod Attempts
pub mod Streaming
pub mod OnMemTable
pub mod Replaced
pub mod Filtered
use spiceai.Prelude.{ℕ, Bool, true, false, Option, none, some, List, [], ◌∷◌}
use spiceai.Prelude.Tests.{if◌then◌else◌}
use spiceai.Prelude.Text.{Text}
use spiceai.Prelude.Result.{Result, ok, err, ◌>>=◌, map_err}
use spiceai.Arrow.{Schema}
use spiceai.MemTable.{RecordBatch}
use spiceai.Refresh.{Refresh}
use spiceai.Refresh.Filter.{Expr}
use spiceai.Refresh.Append.{Error as AppendError, Batches}

pub data ComponentStatus : Type 0 where
  initializing ready disabled error refreshing : ComponentStatus

pub data UpdateType : Type 0 where
  append overwrite changes : UpdateType

-- `DataUpdate`
pub record DataUpdate (Row : Type 0) : Type 0 where
  pub schema : Schema
  pub data_ : List (RecordBatch Row)
  pub update_type : UpdateType

abbrev pub Stream : Type 0 → Type 0
Stream Row = List (Result Text (RecordBatch Row))

-- `StreamingDataUpdate`
pub record StreamingDataUpdate (Row : Type 0) : Type 0 where
  pub schema : Schema
  pub data_ : Stream Row
  pub update_type : UpdateType

-- The errors of accelerated_table.rs that a refresh task makes.
pub data Error : Type 0 where
  unable_to_get_data_from_connector : Text → Error
  failed_to_refresh_dataset : Text → Error
  failed_to_write_data : Text → Error
  unable_to_create_mem_table_from_update : Text → Error
  unable_to_scan_table_provider : Text → Error
  failed_to_filter_updates : Text → Error
  latest_timestamp : AppendError → Error

-- `backoff::Error`, without the time of a retry that no error of this code has.
pub data RetryError : Type 0 where
  permanent transient : Error → RetryError

-- What a refresh task asks of the query engine, of the source and of the accelerator.
pub record Outside (World Frame Row : Type 0) : Type 0 where
  -- The time in nanoseconds.
  pub now : World → ℕ
  pub federated_schema : Schema
  -- `BaseSchema::get_schema` of the source: without the columns of embeddings, if it has some.
  pub federated_base_schema : Schema
  pub accelerator_schema : Schema
  pub check_and_mark_retriable_error : Text → Text
  pub is_retriable_error : Text → Bool
  -- A data frame: of the source, of the accelerator, or of a query; and what it gives.
  pub scan : World → Result Text Frame
  pub read_table : World → Result Text Frame
  pub sql : World → Text → Result Text Frame
  pub filter : Frame → Expr → Result Text Frame
  pub execute_stream : World → Frame → Result Text (Stream Row)
  pub collect : World → Frame → Result Text (List (RecordBatch Row))
  -- The answer to the query for the latest value of the time column in a frame.
  pub max_timestamp : World → Frame → Text → Result AppendError Batches
  pub memory_stream : List (RecordBatch Row) → Schema → Result Text (Stream Row)
  -- The plan of an insertion, with overwriting or not, and its execution.
  pub insert_into : World → Schema → Bool → Result Text (Unit {0})
  pub execute_insert : World → Stream Row → Bool → Result Text (Unit {0}) × World

unfoldable pub retry_from_df_error : (Text → Bool) → Text → RetryError
retry_from_df_error is_retriable e =
    if is_retriable e
    then transient (unable_to_get_data_from_connector e)
    else permanent (failed_to_refresh_dataset e)

unfoldable pub inner_err_from_retry : RetryError → Error
inner_err_from_retry (permanent e) = e
inner_err_from_retry (transient e) = e

-- `StreamingDataUpdate::try_from`
unfoldable pub try_from :
    {World Frame Row : Type 0}
    → Outside World Frame Row
    → DataUpdate Row
    → Result Text (StreamingDataUpdate Row)
try_from outside update = outside.memory_stream update.data_ update.schema >>= λ stream.
    ok (record { schema = update.schema; data_ = stream; update_type = update.update_type })

-- The state of the outside, and the statuses that were reported for the dataset, the last first.
pub record State (World : Type 0) : Type 0 where
  pub world : World
  pub statuses : List ComponentStatus

-- `status::update_dataset`, and `mark_dataset_status` less its metrics.
unfoldable pub mark : {World : Type 0} → ComponentStatus → State World → State World
mark status s = record s { statuses = status ∷ s.statuses }

-- The loop over the filters of `get_data`.
unfoldable pub apply_filters :
    {World Frame Row : Type 0} → Outside World Frame Row → List Expr → Frame → Result Text Frame
apply_filters outside [] df = ok df
apply_filters outside (filter ∷ filters) df =
    outside.filter df filter >>= apply_filters outside filters

-- `get_data`
unfoldable pub get_data :
    {World Frame Row : Type 0}
    → Outside World Frame Row
    → World
    → Option Text
    → List Expr
    → Result Text (Schema × Stream Row)
get_data outside world sql filters =
    (elim sql [ none ↦ outside.scan world | some query ↦ outside.sql world query ])
    >>= apply_filters outside filters
    >>= outside.execute_stream world
    >>= λ stream. ok (outside.federated_schema, stream)
