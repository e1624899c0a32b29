-- ===== src/RefreshTask/Write.antt =====
-- crates/runtime/src/accelerated_table/refresh_task.rs: how a refresh writes its data, and
-- `run_once`. The count of what was written, which is only logged, is left out.
use spiceai.Prelude.{Bool, true, false, none, some, List, [], ◌∷◌}
use spiceai.Prelude.Tests.{if◌then◌else◌}
use spiceai.Prelude.Text.{Text}
use spiceai.Prelude.Result.{Result, ok, err, map_err}
use spiceai.MemTable.{RecordBatch}
use spiceai.Refresh.{Refresh, RefreshMode}
use spiceai.RefreshTask.{
  Outside, State, DataUpdate, StreamingDataUpdate, UpdateType, Error, failed_to_write_data,
  unable_to_create_mem_table_from_update, RetryError, permanent, retry_from_df_error,
  inner_err_from_retry, ready, error, refreshing, mark, try_from,
}
use spiceai.RefreshTask.Load.{
  Outcome, Comparison, get_full_or_incremental_append_update, get_incremental_append_update,
}

-- `update_type == UpdateType::Overwrite`
unfoldable pub is_overwrite : UpdateType → Bool
is_overwrite UpdateType.overwrite = true
is_overwrite _ = false

-- `data.is_empty()`, or the first batch has no columns.
unfoldable pub has_no_data : {Row : Type 0} → List (RecordBatch Row) → Bool
has_no_data [] = true
has_no_data (b ∷ _) = elim b.schema [ [] ↦ true | _ ↦ false ]

module _ {World Frame Row : Type 0} (outside : Outside World Frame Row) where
  -- Behind `collect(insertion_plan)`, with the state of the outside then.
  unfoldable pub collected :
      Result Text (Unit {0}) × World → State World → Result RetryError (Unit {0}) × State World
  collected (err e, w) s =
      (err (retry_from_df_error outside.is_retriable_error e), mark error (record s { world = w }))
  collected (ok _, w) s = (ok tt, mark ready (record s { world = w }))

  unfoldable pub write_streaming_data_update :
      StreamingDataUpdate Row → State World → Result RetryError (Unit {0}) × State World
  write_streaming_data_update update s =
      elim (outside.insert_into s.world update.schema (is_overwrite update.update_type)) [
        | err e ↦ (err (permanent (failed_to_write_data e)), mark error s)
        | ok _ ↦
            collected
              (outside.execute_insert s.world update.data_ (is_overwrite update.update_type)) s
      ]

  unfoldable pub write_data_update :
      DataUpdate Row → State World → Result Error (Unit {0}) × State World
  write_data_update update s =
      if has_no_data update.data_ then (ok tt, mark ready s) else elim (try_from outside update) [
        | err e ↦ (err (unable_to_create_mem_table_from_update e), s)
        | ok streaming ↦
            let (r, s') = write_streaming_data_update streaming s in
            (map_err inner_err_from_retry r, s')
      ]

  -- The end of `run_once`: what was got is written, or the error reported.
  unfoldable pub write_update :
      Result RetryError (StreamingDataUpdate Row) × State World
      → Result RetryError (Unit {0}) × State World
  write_update (err e, s) = (err e, mark error s)
  write_update (ok update, s) = write_streaming_data_update update s

module _ {World Frame Row Cell : Type 0} (outside : Outside World Frame Row)
    (comparison : Comparison Row Cell) where
  -- The match on the mode; `none` is a panic.
  unfoldable pub get_update : Refresh → Text → State World → Outcome World (StreamingDataUpdate Row)
  get_update refresh dataset_name s = elim refresh.mode [
    | RefreshMode.disabled ↦ none
    | RefreshMode.full ↦ get_full_or_incremental_append_update outside refresh none s
    | RefreshMode.append ↦ get_incremental_append_update outside comparison refresh dataset_name s
    | RefreshMode.changes ↦ none
  ]

  unfoldable pub run_once : Refresh → Text → State World → Outcome World (Unit {0})
  run_once refresh dataset_name s = elim (get_update refresh dataset_name (mark refreshing s)) [
    | none ↦ none
    | some got ↦ some (write_update outside got)
  ]
