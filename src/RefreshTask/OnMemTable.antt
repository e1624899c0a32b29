-- ===== src/RefreshTask/OnMemTable.antt =====
-- A refresh task whose accelerator is a `MemTable`: crates/runtime/src/accelerated_table/refresh_task.rs
-- with crates/data_components/src/arrow/write.rs.
use spiceai.Prelude.{
  ℕ, suc, ◌+◌, ◌<◌, Bool, true, false, not, Option, none, some, List, [], ◌∷◌, ◌++◌, map, ◌≡◌, ◌⊎◌,
  inl, inr, refl, sym, ap, subst, arith,
}
use spiceai.Prelude.Lists.{length}
use spiceai.Prelude.Tests.{if◌then◌else◌, Bool-cases}
use spiceai.Prelude.Text.{Text, codes}
use spiceai.Prelude.Result.{Result, ok, err}
use spiceai.Arrow.{Schema}
use spiceai.MemTable.{RecordBatch, Partitions, MemTable, write_all}
use spiceai.MemTable.Count.{in_batches, total}
use spiceai.MemTable.Write.{write_all-ok, write_all-err}
use spiceai.RefreshTask.{
  Outside, State, StreamingDataUpdate, failed_to_write_data, RetryError, permanent, error, mark,
}
use spiceai.RefreshTask.Write.{is_overwrite, collected, write_streaming_data_update}

-- The state of the outside with the table, and how many times a write to it panicked.
pub record WithTable (World Row : Type 0) : Type 0 where
  pub rest : World
  pub table : MemTable Row
  pub panics : ℕ

module _ {World Row : Type 0} where
  -- What an execution of the insertion gives. A panic is counted.
  unfoldable pub written :
      WithTable World Row
      → Option (Result Text ℕ × Partitions Row)
      → Result Text (Unit {0}) × WithTable World Row
  written w none = (err (codes "panic"), record w { panics = suc w.panics })
  written w (some (ok _, batches)) =
      (ok tt, record w { table = record (w.table) { batches = batches } })
  written w (some (err e, batches)) =
      (err e, record w { table = record (w.table) { batches = batches } })

module _ {World Frame Row : Type 0} where
  -- The outside of a refresh task whose accelerator is a `MemTable`. `equivalent` compares schemas as
  -- `insert_into` of the table does, and `read` makes a frame of the table.
  unfoldable pub on_mem_table :
      Outside World Frame Row
      → (Schema → Schema → Bool)
      → (MemTable Row → Result Text Frame)
      → Outside (WithTable World Row) Frame Row
  on_mem_table outside equivalent read = record {
    now = λ w. outside.now w.rest;
    federated_schema = outside.federated_schema;
    federated_base_schema = outside.federated_base_schema;
    accelerator_schema = outside.accelerator_schema;
    check_and_mark_retriable_error = outside.check_and_mark_retriable_error;
    is_retriable_error = outside.is_retriable_error;
    scan = λ w. outside.scan w.rest;
    read_table = λ w. read w.table;
    sql = λ w. outside.sql w.rest;
    filter = outside.filter;
    execute_stream = λ w. outside.execute_stream w.rest;
    collect = λ w. outside.collect w.rest;
    max_timestamp = λ w. outside.max_timestamp w.rest;
    memory_stream = outside.memory_stream;
    insert_into = λ w schema overwrite.
        if not (equivalent w.table.schema schema)
        then err (codes "Inserting query must have the same schema with the table.")
        else ok tt;
    execute_insert = λ w items overwrite.
        written w
          (write_all outside.check_and_mark_retriable_error w.table.batches overwrite items);
  }

module _ {E Batch : Type 0} where
  -- A stream has no error, or a first one.
  stream-cases :
      (items : List (Result E Batch))
      → ((bs : List Batch) × (items ≡ map ok bs))
        ⊎ ((bs : List Batch) × (e : E) × (rest : List (Result E Batch)) × (items
              ≡ map ok bs ++ (err e ∷ rest)))
  stream-cases [] = inl ([], refl)
  stream-cases (err e ∷ rest) = inr ([], e, rest, refl)
  stream-cases (ok b ∷ items) = elim (stream-cases items) [
    | inl (bs, h) ↦ inl (b ∷ bs, ap (◌∷◌ (ok b)) h)
    | inr (bs, e, rest, h) ↦ inr (b ∷ bs, e, rest, ap (◌∷◌ (ok b)) h)
  ]

module _ {World Frame Row : Type 0} (outside : Outside World Frame Row)
    (equivalent : Schema → Schema → Bool) (read : MemTable Row → Result Text Frame) where
  abbrev accelerated : Outside (WithTable World Row) Frame Row
  accelerated = on_mem_table outside equivalent read

  -- The rows of the update are written, or nothing.
  abbrev pub Written : StreamingDataUpdate Row → MemTable Row → MemTable Row → Type 0
  Written update before after =
      (bs : List (RecordBatch Row)) × (update.data_ ≡ map ok bs)
      × ((p : Row → Bool)
          → total p after.batches
            ≡ (if is_overwrite update.update_type then 0 else total p before.batches)
              + in_batches p bs)

  -- All of the update is written, or the outside is as it was.
  abbrev pub IsAtomic :
      StreamingDataUpdate Row
      → State (WithTable World Row)
      → Result RetryError (Unit {0}) × State (WithTable World Row)
      → Type 0
  IsAtomic update s out =
      (out.0 ≡ ok tt)
        × Written update s.world.table out.1.world.table
        × (out.1.world.panics ≡ s.world.panics)
      ⊎ ((e : RetryError) × (out.0 ≡ err e) × (out.1.world ≡ s.world))

  write-same_schema :
      (update : StreamingDataUpdate Row) (s : State (WithTable World Row))
      → equivalent s.world.table.schema update.schema ≡ true
      → write_streaming_data_update accelerated update s
        ≡ collected accelerated
            (written s.world (
              write_all outside.check_and_mark_retriable_error s.world.table.batches
                (is_overwrite update.update_type)
                update.data_))
            s
  unfolding write_streaming_data_update on_mem_table
  write-same_schema update s e = ground (arith, e)

  write-other_schema :
      (update : StreamingDataUpdate Row) (s : State (WithTable World Row))
      → equivalent s.world.table.schema update.schema ≡ false
      → (e : RetryError) × (write_streaming_data_update accelerated update s
          ≡ (err e, mark error s))
  unfolding write_streaming_data_update on_mem_table
  write-other_schema update s e = (
    permanent
        (failed_to_write_data (codes "Inserting query must have the same schema with the table.")),
    ground (arith, e),
  )

  collected-IsAtomic :
      (update : StreamingDataUpdate Row) (s : State (WithTable World Row))
      → 0 < length s.world.table.batches
      → IsAtomic update s (
          collected accelerated
            (written s.world (
              write_all outside.check_and_mark_retriable_error s.world.table.batches
                (is_overwrite update.update_type)
                update.data_))
            s)
  unfolding written collected mark
  collected-IsAtomic update s pos = elim (stream-cases update.data_) [
    | inl (bs, h) ↦
        let (batches', w, l, t) =
          write_all-ok outside.check_and_mark_retriable_error s.world.table.batches bs
            (is_overwrite update.update_type) pos in
        rw (h, w) (inl (refl, (bs, refl, t), refl))
    | inr (bs, x, rest, h) ↦
        let w =
          write_all-err outside.check_and_mark_retriable_error s.world.table.batches bs
            (is_overwrite update.update_type) pos x rest in
        rw (h, w) (inr (_, refl, refl))
  ]

  pub write_streaming_data_update-IsAtomic :
      (update : StreamingDataUpdate Row) (s : State (WithTable World Row))
      → 0 < length s.world.table.batches
      → IsAtomic update s (write_streaming_data_update accelerated update s)
  unfolding mark
  write_streaming_data_update-IsAtomic update s pos =
      elim (Bool-cases (equivalent s.world.table.schema update.schema)) [
        | inr e ↦
            let (x, h) = write-other_schema update s e in
            subst (IsAtomic update s) (sym h) (inr (x, refl, refl))
        | inl e ↦
            subst (IsAtomic update s) (sym (write-same_schema update s e))
              (collected-IsAtomic update s pos)
      ]
