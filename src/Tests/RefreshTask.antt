-- ===== src/Tests/RefreshTask.antt =====
-- The theorems on refresh tasks at concrete inputs. A row is a number with one column, and the source
-- holds the rows 1 and 2; the first insertion fails, with an error to retry.
use spiceai.Prelude.{
  ℕ, zero, suc, ◌+◌, ◌≤◌, Bool, true, false, not, ◌&&◌, ◌⊎◌, Option, none, some, List, [], ◌∷◌, map,
  ◌≡◌, ◌≢◌, refl, sym, ap, arith,
}
use spiceai.Prelude.Lists.{length}
use spiceai.Prelude.Tests.{nat_beq, ltb, if◌then◌else◌}
use spiceai.Prelude.Result.{Result, ok, err}
use spiceai.Prelude.Text.{Text, codes, ◌==◌}
use spiceai.Arrow.{DataType, Field, Schema}
use spiceai.MemTable.{RecordBatch, MemTable}
use spiceai.MemTable.Count.{in_batches, total}
use spiceai.Refresh.{Refresh, RefreshMode}
use spiceai.Refresh.Filter.{Expr}
use spiceai.Backoff.{FibonacciBackoff, build, next_backoff}
use spiceai.RefreshTask.{
  Outside, State, DataUpdate, UpdateType, Stream, Error, unable_to_get_data_from_connector,
  failed_to_refresh_dataset, RetryError, transient, ComponentStatus, ready, error, refreshing, mark,
}
use spiceai.RefreshTask.Records.{
  columns, exists, filter_records, filter_rows, struct_row, filter_records-exists,
}
use spiceai.RefreshTask.Load.{Comparison}
use spiceai.RefreshTask.Write.{run_once}
use spiceai.RefreshTask.Run.{
  Retried, Ends, succeeded, again, last_status, status_of, Retried-status,
}
use spiceai.RefreshTask.Attempts.{Retried-Ends, Retried-le}
use spiceai.RefreshTask.OnMemTable.{WithTable, on_mem_table}
use spiceai.RefreshTask.Replaced.{source, run_once-replaces}
use spiceai.RefreshTask.Streaming.{
  Progress, start_streaming_append, writes, start_streaming_append-counts,
}

abbrev id_schema : Schema
id_schema = record { name = codes "id"; data_type = DataType.int64 } ∷ []

abbrev batch : List ℕ → RecordBatch ℕ
batch rows = record { schema = id_schema; rows = rows }

abbrev equal : List ℕ → List ℕ → Bool
equal (x ∷ []) (y ∷ []) = nat_beq x y
equal _ _ = false

abbrev comparison : Comparison ℕ ℕ
comparison = record { column = λ i r. r; make_comparator = λ schema. some equal }

filter_records-exists_example :
    (is : List ℕ) × (columns id_schema id_schema ≡ some is)
    × (batch (3 ∷ 4 ∷ []) ≡ record (batch (1 ∷ 3 ∷ 2 ∷ 4 ∷ [])) {
      rows =
          filter_rows
            (λ r. not (
              exists
                (λ i s. s)
                equal
                id_schema
                (batch (2 ∷ []) ∷ batch (1 ∷ []) ∷ [])
                (struct_row (λ i s. s) is r)))
            (1 ∷ 3 ∷ 2 ∷ 4 ∷ []);
    })
unfolding filter_records columns spiceai.RefreshTask.Records.index_of ◌==◌
    spiceai.RefreshTask.Records.comparators filter_rows spiceai.RefreshTask.Records.not_matched
    spiceai.Prelude.Lists.any struct_row
filter_records-exists_example =
    filter_records-exists (λ i r. r) (λ schema. some equal) equal id_schema refl
      (batch (1 ∷ 3 ∷ 2 ∷ 4 ∷ [])) (batch (3 ∷ 4 ∷ [])) (batch (2 ∷ []) ∷ batch (1 ∷ []) ∷ []) refl

-- The first insertion fails, the others not.
abbrev inserted : ℕ → Result Text (Unit {0}) × ℕ
inserted zero = (err (codes "busy"), 1)
inserted (suc w) = (ok tt, suc w)

abbrev outside : Outside ℕ (List ℕ) ℕ
outside = record {
  now = λ w. 100;
  federated_schema = id_schema;
  federated_base_schema = id_schema;
  accelerator_schema = id_schema;
  check_and_mark_retriable_error = λ e. e;
  is_retriable_error = λ e. true;
  scan = λ w. ok (1 ∷ 2 ∷ []);
  read_table = λ w. ok [];
  sql = λ w query. ok [];
  filter = λ df e. ok df;
  execute_stream = λ w df. ok (ok (batch df) ∷ []);
  collect = λ w df. ok (batch df ∷ []);
  max_timestamp = λ w df column. ok [];
  memory_stream = λ bs schema. ok (map ok bs);
  insert_into = λ w schema overwrite. ok tt;
  execute_insert = λ w items overwrite. inserted w;
}

abbrev full : Refresh
full = record {
  time_column = none;
  time_format = none;
  check_interval = none;
  max_jitter = none;
  sql = none;
  mode = RefreshMode.full;
  period = none;
  append_overlap = none;
  refresh_retry_enabled = true;
  refresh_retry_max_attempts = some 3;
}

abbrev at : ℕ → List ComponentStatus → State ℕ
at w statuses = record { world = w; statuses = statuses }

abbrev operation : State ℕ → Option (Result RetryError (Unit {0}) × State ℕ)
operation = run_once outside comparison full (codes "t")

abbrev randomized : ℕ → ℕ → ℕ → ℕ
randomized factor random ms = ms

abbrev backoff : ℕ → FibonacciBackoff ℕ
backoff n = record { num_retries = n; randomization_factor = 0; max_retries = some 3 }

abbrev failed : List ComponentStatus
failed = error ∷ refreshing ∷ refreshing ∷ []

first_attempt :
    operation (at 0 [])
    ≡ some (err (transient (unable_to_get_data_from_connector (codes "busy"))), at 1 failed)
unfolding run_once spiceai.RefreshTask.Write.get_update
    spiceai.RefreshTask.Load.get_full_or_incremental_append_update
    spiceai.RefreshTask.Load.get_data_update spiceai.RefreshTask.Load.update_of
    spiceai.RefreshTask.Load.update_type spiceai.RefreshTask.get_data
    spiceai.RefreshTask.apply_filters spiceai.RefreshTask.Load.update_filters
    spiceai.RefreshTask.Load.get_filter_converter spiceai.Refresh.Filter.create
    spiceai.Arrow.column_with_name ◌==◌ spiceai.RefreshTask.Load.time_column_or_empty
    spiceai.RefreshTask.Write.write_update spiceai.RefreshTask.Write.write_streaming_data_update
    spiceai.RefreshTask.Write.collected spiceai.Prelude.Lists.find
    spiceai.RefreshTask.Write.is_overwrite mark spiceai.RefreshTask.retry_from_df_error
first_attempt = refl

second_attempt :
    operation (at 1 failed) ≡ some (ok tt, at 1 (ready ∷ refreshing ∷ refreshing ∷ failed))
unfolding run_once spiceai.RefreshTask.Write.get_update
    spiceai.RefreshTask.Load.get_full_or_incremental_append_update
    spiceai.RefreshTask.Load.get_data_update spiceai.RefreshTask.Load.update_of
    spiceai.RefreshTask.Load.update_type spiceai.RefreshTask.get_data
    spiceai.RefreshTask.apply_filters spiceai.RefreshTask.Load.update_filters
    spiceai.RefreshTask.Load.get_filter_converter spiceai.Refresh.Filter.create
    spiceai.Arrow.column_with_name ◌==◌ spiceai.RefreshTask.Load.time_column_or_empty
    spiceai.RefreshTask.Write.write_update spiceai.RefreshTask.Write.write_streaming_data_update
    spiceai.RefreshTask.Write.collected spiceai.Prelude.Lists.find
    spiceai.RefreshTask.Write.is_overwrite mark spiceai.RefreshTask.retry_from_df_error
second_attempt = refl

delay_lem : next_backoff randomized 0 (backoff 0) ≡ some (some 1000, backoff 1)
unfolding next_backoff spiceai.Backoff.exhausted spiceai.Backoff.interval
delay_lem = refl

two_attempts :
    Retried randomized operation
      (backoff 0)
      (at 0 [])
      2
      (ok tt)
      (at 1 (ready ∷ refreshing ∷ refreshing ∷ failed))
two_attempts =
    again (backoff 0) (backoff 1) (at 0 []) (at 1 failed)
      (at 1 (ready ∷ refreshing ∷ refreshing ∷ failed))
      (unable_to_get_data_from_connector (codes "busy")) 0 1000 1 1 (ok tt) first_attempt delay_lem
      (succeeded (backoff 1) (at 1 failed) (at 1 (ready ∷ refreshing ∷ refreshing ∷ failed))
        second_attempt)

Retried-status_example :
    last_status (at 1 (ready ∷ refreshing ∷ refreshing ∷ failed))
    ≡ some (status_of {E = Error} (ok tt))
Retried-status_example =
    Retried-status outside comparison full (codes "t") randomized (backoff 0) (at 0 [])
      (at 1 (ready ∷ refreshing ∷ refreshing ∷ failed)) 2 (ok tt) two_attempts

Retried-le_example : 2 ≤ suc 3
unfolding build
Retried-le_example =
    Retried-le randomized 0 operation 3 (omega arith) (at 0 [])
      (at 1 (ready ∷ refreshing ∷ refreshing ∷ failed)) 2 (ok tt) two_attempts

operation-at : (w : ℕ) (statuses : List ComponentStatus) → operation (at w statuses) ≢ none
unfolding run_once spiceai.RefreshTask.Write.get_update
    spiceai.RefreshTask.Load.get_full_or_incremental_append_update
    spiceai.RefreshTask.Load.get_data_update spiceai.RefreshTask.Load.update_of
    spiceai.RefreshTask.Load.update_type spiceai.RefreshTask.get_data
    spiceai.RefreshTask.apply_filters spiceai.RefreshTask.Load.update_filters
    spiceai.RefreshTask.Load.get_filter_converter spiceai.Refresh.Filter.create
    spiceai.Arrow.column_with_name ◌==◌ spiceai.RefreshTask.Load.time_column_or_empty
    spiceai.RefreshTask.Write.write_update spiceai.RefreshTask.Write.write_streaming_data_update
    spiceai.RefreshTask.Write.collected spiceai.Prelude.Lists.find
    spiceai.RefreshTask.Write.is_overwrite mark spiceai.RefreshTask.retry_from_df_error
operation-at zero statuses h = ground (arith, h)
operation-at (suc w) statuses h = ground (arith, h)

operation-total : (s : State ℕ) → operation s ≢ none
operation-total s = operation-at s.world s.statuses

Retried-Ends_example : Ends randomized operation (build 0 (some 3)) (at 0 [])
Retried-Ends_example = Retried-Ends randomized 0 operation 3 (omega arith) operation-total (at 0 [])

abbrev table : MemTable ℕ
table = record { schema = id_schema; batches = (batch (7 ∷ []) ∷ []) ∷ [] }

abbrev always : Schema → Schema → Bool
always a b = true

abbrev with_table : State (WithTable ℕ ℕ)
with_table = record { world = record { rest = 0; table = table; panics = 0 }; statuses = [] }

run_once-replaces_example :
    (r : Result RetryError (Unit {0})) × (s' : State (WithTable ℕ ℕ)) × (run_once
        (on_mem_table outside always (λ t. ok []))
        comparison
        full
        (codes "t")
        with_table
      ≡ some (r, s'))
    × ((r ≡ ok tt)
          × ((schema : Schema) × (bs : List (RecordBatch ℕ)) × (source outside full 0
                ≡ ok (schema, map ok bs))
              × ((p : ℕ → Bool) → total p s'.world.table.batches ≡ in_batches p bs)
              × (s'.world.panics ≡ 0))
        ⊎ ((e : RetryError) × (r ≡ err e) × (s'.world ≡ with_table.world)))
run_once-replaces_example =
    run_once-replaces outside always (λ t. ok []) comparison full (codes "t") with_table refl
      (omega arith)

abbrev appended : List (Result Error (DataUpdate ℕ))
appended =
    ok (record { schema = id_schema; data_ = batch (8 ∷ []) ∷ []; update_type = UpdateType.append })
    ∷ err (failed_to_refresh_dataset (codes "lost"))
    ∷ ok (record {
      schema = id_schema;
      data_ = batch (9 ∷ []) ∷ [];
      update_type = UpdateType.append;
    })
    ∷ []

start_streaming_append-counts_example :
    let p : Progress ℕ = record {
      task = mark refreshing (at 0 []);
      ready_sender = true;
      ready_sent = 0;
      invalidations = 0;
    } in
    ((start_streaming_append outside true appended true (at 0 [])).ready_sent
      ≡ (if true && ltb 0 (writes outside true appended p) then 1 else 0))
    × ((start_streaming_append outside true appended true (at 0 [])).invalidations
        ≡ (if true then writes outside true appended p else 0))
start_streaming_append-counts_example =
    start_streaming_append-counts outside true appended true (at 0 [])
