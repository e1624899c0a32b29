-- ===== src/MemTable/Deletion.antt =====
-- crates/data_components/src/arrow/write.rs: `MemDeletionSink::delete_from`.
--
-- The engine that plans and runs the queries is foreign: `Engine` holds what the sink asks of it,
-- and `IsSound` what its documentation says of that.
use spiceai.Prelude.{
  ℕ, ◌+◌, ◌-◌, ◌%◌, Bool, true, false, Option, none, some, List, [], ◌∷◌, map, ◌≡◌,
}
use spiceai.Prelude.Lists.{length}
use spiceai.Prelude.Tests.{if◌then◌else◌}
use spiceai.Prelude.Result.{Result, ok, err, ◌>>=◌, map_err}
use spiceai.Arrow.{Schema}
use spiceai.MemTable.Count.{total, any_row}
use spiceai.MemTable.{
  RecordBatch, Error, foreign, Partitions, MemTable, try_new, push_at, empty_partitions,
  write_targets,
}

pub record Engine (Row Expr E : Type 0) : Type 0 where
  -- The value of an expression at a row, `none` for NULL; or the plan is refused.
  pub plan : Schema → Expr → Result E (Row → Option Bool)
  pub count : Partitions Row → Result E ℕ
  pub collect_partitioned : Partitions Row → Result E (Partitions Row)

-- The engine answers: a count is the number of rows, and collecting a query regroups its rows
-- and neither makes nor loses one.
pub record IsSound {Row Expr E : Type 0} (engine : Engine Row Expr E) : Type 0 where
  pub counts : (ps : Partitions Row) → engine.count ps ≡ ok (total any_row ps)
  pub collects :
      (ps : Partitions Row)
      → (qs : Partitions Row) × (engine.collect_partitioned ps ≡ ok qs)
        × ((p : Row → Bool) → total p qs ≡ total p ps)

-- `is_not_true`
unfoldable pub is_not_true : Option Bool → Bool
is_not_true (some true) = false
is_not_true (some false) = true
is_not_true none = true

module _ {Row : Type 0} where
  unfoldable pub keep_rows : (Row → Bool) → List Row → List Row
  keep_rows p [] = []
  keep_rows p (r ∷ rs) = let rest = keep_rows p rs in if p r then r ∷ rest else rest

  abbrev pub keep_batch : (Row → Bool) → RecordBatch Row → RecordBatch Row
  keep_batch p b = record b { rows = keep_rows p b.rows }

  abbrev pub keep : (Row → Bool) → Partitions Row → Partitions Row
  keep p = map (map (keep_batch p))

  -- The loop that hands the collected partitions to the targets in turn.
  unfoldable pub push_all : Partitions Row → ℕ → List (RecordBatch Row) → Option (Partitions Row)
  push_all new i [] = some new
  push_all new i (b ∷ bs) = elim (push_at new i b) [ none ↦ none | some new' ↦ push_all new' i bs ]

  unfoldable pub deal_partitions : ℕ → Partitions Row → ℕ → Partitions Row → Option (Partitions Row)
  deal_partitions n new i [] = some new
  deal_partitions n new i (vec ∷ vecs) = elim (push_all new i vec) [
    | none ↦ none
    | some new' ↦ deal_partitions n new' ((i + 1) % n) vecs
  ]

module _ {Row Expr E : Type 0} (engine : Engine Row Expr E) where
  -- `df = df.filter(is_not_true(filter))?` for each filter.
  unfoldable pub apply_filters : Schema → List Expr → Partitions Row → Result E (Partitions Row)
  apply_filters schema [] df = ok df
  apply_filters schema (filter ∷ filters) df = elim (engine.plan schema filter) [
    | err e ↦ err e
    | ok value ↦ apply_filters schema filters (keep (λ r. is_not_true (value r)) df)
  ]

  -- The part that can fail: how many rows go, and the rows that stay.
  unfoldable pub delete_query :
      (Schema → Schema → Bool)
      → Schema
      → List Expr
      → Partitions Row
      → Result (Error E) (ℕ × Partitions Row)
  delete_query contains schema filters tmp_batches = do
    provider ← try_new contains schema tmp_batches
    before ← map_err foreign (engine.count provider.batches)
    df ← map_err foreign (apply_filters schema filters provider.batches)
    after ← map_err foreign (engine.count df)
    collected ← map_err foreign (engine.collect_partitioned df)
    ok (before - after, collected)

  -- The batches are moved out of the partitions first, and new ones are put in at the end.
  unfoldable pub delete_from :
      (Schema → Schema → Bool)
      → MemTable Row
      → List Expr
      → Option (Result (Error E) ℕ × MemTable Row)
  delete_from contains self filters =
      let emptied = empty_partitions (length self.batches) in
      elim (delete_query contains self.schema filters self.batches) [
        | err e ↦ some (err e, record self { batches = emptied })
        | ok (count, collected) ↦ elim (deal_partitions (length self.batches) emptied 0 collected) [
          | none ↦ none
          | some new_batches ↦
              some (ok count, record self { batches = write_targets false emptied new_batches })
        ]
      ]
