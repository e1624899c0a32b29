-- ===== src/RefreshTask/Streaming.antt =====
-- crates/runtime/src/accelerated_table/refresh_task.rs: a stream of appended data.
--
-- Errors of the invalidation of cached results are only logged, and left out with its effect; the
-- calls are counted.
use spiceai.Prelude.{ℕ, ◌+◌, Bool, true, false, ◌&&◌, List, [], ◌∷◌, map, ◌≡◌, arith}
use spiceai.Prelude.Tests.{if◌then◌else◌, ltb, Bool-cases}
use spiceai.Prelude.Text.{Text}
use spiceai.Prelude.Result.{Result, ok, err, Result-cases}
use spiceai.Arrow.{Schema}
use spiceai.MemTable.{RecordBatch}
use spiceai.RefreshTask.{
  Outside, State, DataUpdate, UpdateType, Stream, Error, unable_to_scan_table_provider, error,
  refreshing, mark,
}
use spiceai.RefreshTask.Write.{write_data_update}

-- One item of the stream of the source.
unfoldable pub append_item :
    {Row : Type 0} → Schema → Result Text (RecordBatch Row) → Result Error (DataUpdate Row)
append_item schema (ok batch) =
    ok (record { schema = schema; data_ = batch ∷ []; update_type = UpdateType.append })
append_item schema (err e) = err (unable_to_scan_table_provider e)

-- `get_append_stream`, from the plan of the scan with its number of partitions and its execution.
unfoldable pub get_append_stream :
    {Row : Type 0}
    → Schema
    → Result Text ℕ
    → Result Text (Stream Row)
    → List (Result Error (DataUpdate Row))
get_append_stream schema (err e) executed = err (unable_to_scan_table_provider e) ∷ []
get_append_stream schema (ok partition_count) executed =
    if ltb 1 partition_count then [] else elim executed [
      | err e ↦ err (unable_to_scan_table_provider e) ∷ []
      | ok items ↦ map (append_item schema) items
    ]

-- The task, whether there is still somebody to be told of readiness, how often somebody was told, and
-- how often the cached results of the dataset were invalidated.
pub record Progress (World : Type 0) : Type 0 where
  pub task : State World
  pub ready_sender : Bool
  pub ready_sent : ℕ
  pub invalidations : ℕ

-- Behind a successful write: `ready_sender.take()`, and the invalidation if there is a cache.
unfoldable pub succeeded : {World : Type 0} → Bool → Progress World → Progress World
succeeded has_cache p = record p {
  ready_sender = false;
  ready_sent = (if p.ready_sender then 1 else 0) + p.ready_sent;
  invalidations = (if has_cache then 1 else 0) + p.invalidations;
}

module _ {World Frame Row : Type 0} (outside : Outside World Frame Row) (has_cache : Bool) where
  -- One pass of the loop of `start_streaming_append`.
  unfoldable pub append_update : Result Error (DataUpdate Row) → Progress World → Progress World
  append_update (err e) p = record p { task = mark error p.task }
  append_update (ok update) p =
      let (r, task) = write_data_update outside update p.task in
      elim r [
        | ok _ ↦ succeeded has_cache (record p { task = task })
        | err e ↦ record p { task = task }
      ]

  unfoldable pub append_updates :
      List (Result Error (DataUpdate Row)) → Progress World → Progress World
  append_updates [] p = p
  append_updates (u ∷ updates) p = append_updates updates (append_update u p)

  unfoldable pub start_streaming_append :
      List (Result Error (DataUpdate Row)) → Bool → State World → Progress World
  start_streaming_append updates ready_sender s = append_updates updates (record {
    task = mark refreshing s;
    ready_sender = ready_sender;
    ready_sent = 0;
    invalidations = 0;
  })

  -- Whether an update is one that gets written.
  unfoldable pub is_written : Result Error (DataUpdate Row) → State World → Bool
  is_written (err e) s = false
  is_written (ok update) s = elim (write_data_update outside update s).0 [
    | ok _ ↦ true
    | err _ ↦ false
  ]

  -- How many of the updates get written.
  unfoldable pub writes : List (Result Error (DataUpdate Row)) → Progress World → ℕ
  writes [] p = 0
  writes (u ∷ updates) p =
      (if is_written u p.task then 1 else 0) + writes updates (append_update u p)

module _ {World Frame Row : Type 0} (outside : Outside World Frame Row) (has_cache : Bool) where
  append_update-counts :
      (u : Result Error (DataUpdate Row)) (p : Progress World)
      → ((append_update outside has_cache u p).ready_sender
          ≡ (if is_written outside has_cache u p.task then false else p.ready_sender))
        × ((append_update outside has_cache u p).ready_sent
            ≡ p.ready_sent
              + (if is_written outside has_cache u p.task && p.ready_sender then 1 else 0))
        × ((append_update outside has_cache u p).invalidations
            ≡ p.invalidations
              + (if is_written outside has_cache u p.task && has_cache then 1 else 0))
  unfolding append_update is_written succeeded
  append_update-counts (err e) p = ground arith
  append_update-counts (ok update) p = ground (
    arith,
    Result-cases (write_data_update outside update p.task).0,
    Bool-cases has_cache,
    Bool-cases p.ready_sender,
  )

  append_updates-counts :
      (updates : List (Result Error (DataUpdate Row))) (p : Progress World)
      → ((append_updates outside has_cache updates p).ready_sent
          ≡ p.ready_sent
            + (if p.ready_sender && ltb 0 (writes outside has_cache updates p) then 1 else 0))
        × ((append_updates outside has_cache updates p).invalidations
            ≡ p.invalidations + (if has_cache then writes outside has_cache updates p else 0))
  unfolding append_updates writes
  append_updates-counts [] p = ground arith
  append_updates-counts (u ∷ updates) p = ground (
    arith,
    append_update-counts u p,
    append_updates-counts updates (append_update outside has_cache u p),
    Bool-cases (is_written outside has_cache u p.task),
    Bool-cases has_cache,
    Bool-cases p.ready_sender,
  )

  -- A streaming append tells of readiness once if one of its updates gets written and there is somebody
  -- to be told, and else not; and with a cache it invalidates the cached results of the dataset as often
  -- as an update gets written.
  pub start_streaming_append-counts :
      (updates : List (Result Error (DataUpdate Row))) (ready_sender : Bool) (s : State World)
      → let p : Progress World = record {
        task = mark refreshing s;
        ready_sender = ready_sender;
        ready_sent = 0;
        invalidations = 0;
      } in
        ((start_streaming_append outside has_cache updates ready_sender s).ready_sent
          ≡ (if ready_sender && ltb 0 (writes outside has_cache updates p) then 1 else 0))
        × ((start_streaming_append outside has_cache updates ready_sender s).invalidations
            ≡ (if has_cache then writes outside has_cache updates p else 0))
  unfolding start_streaming_append
  start_streaming_append-counts updates ready_sender s =
      let (sent, invalidated) = append_updates-counts updates (record {
        task = mark refreshing s;
        ready_sender = ready_sender;
        ready_sent = 0;
        invalidations = 0;
      }) in
      (omega (arith, sent), omega (arith, invalidated))
