-- ===== src/RefreshTask/Replaced.antt =====
-- A full refresh of a table of the Arrow accelerator: crates/runtime/src/accelerated_table/refresh_task.rs
-- with crates/data_components/src/arrow/write.rs.
use spiceai.Prelude.{
  ◌<◌, Bool, Option, none, some, List, [], ◌∷◌, map, ◌≡◌, ◌⊎◌, inl, inr, refl, ap, ◌∙◌, arith,
}
use spiceai.Prelude.Lists.{length}
use spiceai.Prelude.Text.{Text}
use spiceai.Prelude.Result.{Result, ok, err, map_err, ◌>>=◌, Result-cases}
use spiceai.Arrow.{Schema}
use spiceai.MemTable.{RecordBatch, MemTable}
use spiceai.MemTable.Count.{in_batches, total}
use spiceai.Refresh.{Refresh, RefreshMode}
use spiceai.Refresh.Filter.{Expr}
use spiceai.RefreshTask.{
  Outside, State, StreamingDataUpdate, UpdateType, Stream, RetryError, retry_from_df_error, error,
  refreshing, mark, get_data, apply_filters,
}
use spiceai.RefreshTask.Load.{
  Outcome, Comparison, update_of, get_data_update, get_full_or_incremental_append_update,
  get_filter_converter, update_filters, update_type,
}
use spiceai.RefreshTask.Write.{
  is_overwrite, write_streaming_data_update, write_update, get_update, run_once,
}
use spiceai.RefreshTask.OnMemTable.{WithTable, on_mem_table, write_streaming_data_update-IsAtomic}

module _ {World Frame Row : Type 0} (outside : Outside World Frame Row) where
  -- The data that a full refresh asks the source for.
  abbrev pub source : Refresh → World → Result Text (Schema × Stream Row)
  source refresh w = get_data outside w refresh.sql (
      update_filters (get_filter_converter outside.federated_schema refresh) none refresh.period
        (outside.now w))

module _ {World Frame Row : Type 0} (outside : Outside World Frame Row)
    (equivalent : Schema → Schema → Bool) (read : MemTable Row → Result Text Frame) where
  apply_filters-on_mem_table :
      (filters : List Expr) (df : Frame)
      → apply_filters (on_mem_table outside equivalent read) filters df
        ≡ apply_filters outside filters df
  unfolding apply_filters on_mem_table
  apply_filters-on_mem_table [] df i = ok df
  apply_filters-on_mem_table (f ∷ filters) df i =
      outside.filter df f >>= λ d. apply_filters-on_mem_table filters d i

  get_data-on_mem_table :
      (w : WithTable World Row) (sql : Option Text) (filters : List Expr)
      → get_data (on_mem_table outside equivalent read) w sql filters
        ≡ get_data outside w.rest sql filters
  unfolding get_data on_mem_table
  get_data-on_mem_table w none filters i =
      outside.scan w.rest
      >>= (λ df. apply_filters-on_mem_table filters df i)
      >>= outside.execute_stream w.rest
      >>= λ stream. ok (outside.federated_schema, stream)
  get_data-on_mem_table w (some query) filters i =
      outside.sql w.rest query
      >>= (λ df. apply_filters-on_mem_table filters df i)
      >>= outside.execute_stream w.rest
      >>= λ stream. ok (outside.federated_schema, stream)

module _ {World Frame Row Cell : Type 0} (outside : Outside World Frame Row)
    (equivalent : Schema → Schema → Bool) (read : MemTable Row → Result Text Frame)
    (comparison : Comparison Row Cell) (refresh : Refresh) (dataset_name : Text) where
  abbrev on_table : Outside (WithTable World Row) Frame Row
  on_table = on_mem_table outside equivalent read

  get_update-full :
      (s : State (WithTable World Row))
      → refresh.mode ≡ RefreshMode.full
      → get_update on_table comparison refresh dataset_name s
        ≡ get_full_or_incremental_append_update on_table refresh none s
  unfolding get_update
  get_update-full s m = rw (m) refl

  -- What a full refresh got, from what the source gave.
  abbrev got :
      State (WithTable World Row)
      → RefreshMode
      → Result Text (Schema × Stream Row)
      → Outcome (WithTable World Row) (StreamingDataUpdate Row)
  got s mode data_ =
      elim (update_of on_table (update_type mode)
        (map_err outside.check_and_mark_retriable_error data_)) [
          | none ↦ none
          | some r ↦ some (r, mark refreshing s)
        ]

  get_update-got :
      (s : State (WithTable World Row))
      → get_full_or_incremental_append_update on_table refresh none s
        ≡ got s refresh.mode (source outside refresh s.world.rest)
  unfolding get_full_or_incremental_append_update get_data_update on_mem_table
  get_update-got s i = got s refresh.mode (
      get_data-on_mem_table outside equivalent read s.world refresh.sql
        (update_filters (get_filter_converter outside.federated_schema refresh) none refresh.period
          (outside.now s.world.rest))
        i)

  get_update-err :
      (s : State (WithTable World Row)) (e : Text)
      → refresh.mode ≡ RefreshMode.full
      → source outside refresh s.world.rest ≡ err e
      → (x : RetryError) × (get_full_or_incremental_append_update on_table refresh none s
          ≡ some (err x, mark refreshing s))
  unfolding update_of update_type on_mem_table
  get_update-err s e m h = (
    retry_from_df_error outside.is_retriable_error (outside.check_and_mark_retriable_error e),
    get_update-got s ∙ (λ i. got s (m i) (h i)),
  )

  get_update-ok :
      (s : State (WithTable World Row)) (schema : Schema) (items : Stream Row)
      → refresh.mode ≡ RefreshMode.full
      → source outside refresh s.world.rest ≡ ok (schema, items)
      → get_full_or_incremental_append_update on_table refresh none s
        ≡ some (
          ok (record { schema = schema; data_ = items; update_type = UpdateType.overwrite }),
          mark refreshing s,
        )
  unfolding update_of update_type on_mem_table
  get_update-ok s schema items m h = get_update-got s ∙ (λ i. got s (m i) (h i))

  -- A full refresh, on a table of the Arrow accelerator with a partition, returns, and
  -- either all of it is done or nothing: it succeeds, no write panicked, and the rows of the table are exactly those that
  -- the source gives, for every predicate as many; or it fails, and the table is as it was and no write panicked.
  pub run_once-replaces :
      (s : State (WithTable World Row))
      → refresh.mode ≡ RefreshMode.full
      → 0 < length s.world.table.batches
      → (r : Result RetryError (Unit {0})) × (s' : State (WithTable World Row)) × (run_once
            (on_mem_table outside equivalent read)
            comparison
            refresh
            dataset_name
            s
          ≡ some (r, s'))
        × ((r ≡ ok tt)
              × ((schema : Schema) × (bs : List (RecordBatch Row)) × (source outside refresh
                      s.world.rest
                    ≡ ok (schema, map ok bs))
                  × ((p : Row → Bool) → total p s'.world.table.batches ≡ in_batches p bs)
                  × (s'.world.panics ≡ s.world.panics))
            ⊎ ((e : RetryError) × (r ≡ err e) × (s'.world ≡ s.world)))
  unfolding run_once write_update mark is_overwrite
  run_once-replaces s m pos = elim (Result-cases (source outside refresh s.world.rest)) [
    | inr (e, h) ↦
        let (x, g) = get_update-err (mark refreshing s) e m h in
        (
          err x,
          mark error (mark refreshing (mark refreshing s)),
          rw (get_update-full (mark refreshing s) m, g, run_once) refl,
          inr (x, refl, refl),
        )
    | inl ((schema, items), h) ↦
        let g = get_update-ok (mark refreshing s) schema items m h in
        let update : StreamingDataUpdate Row = record {
          schema = schema;
          data_ = items;
          update_type = UpdateType.overwrite;
        } in
        let s₁ = mark refreshing (mark refreshing s) in
        let out = write_streaming_data_update on_table update s₁ in
        let runs : run_once on_table comparison refresh dataset_name s ≡ some (out.0, out.1) =
          rw (get_update-full (mark refreshing s) m, g, run_once) refl in
        elim (write_streaming_data_update-IsAtomic outside equivalent read update s₁ pos) [
          | inl (o, (bs, i, t), calm) ↦ (
            out.0,
            out.1,
            runs,
            inl (o, (schema, bs, h ∙ ap (λ is. ok (schema, is)) i, λ p. omega (arith, t p), calm)),
          )
          | inr (e, o, kept) ↦ (out.0, out.1, runs, inr (e, o, kept))
        ]
  ]
