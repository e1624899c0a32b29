-- ===== src/MemTable.antt =====
-- crates/data_components/src/arrow/write.rs: `MemTable`, the table of the Arrow accelerator.
--
-- A record batch is its schema and its rows; a stream of batches is the list of what it yields.
-- A panic is `none`. An insertion holds all locks while it writes, and is one step. A deletion
-- gives its locks back between taking the rows out and putting the others in; here no other write
-- comes between the two.
pub mod Deletion
pub mod Count
pub mod Write
pub mod Delete
pub mod Emptied
use spiceai.Prelude.{
  ℕ, zero, suc, ◌+◌, ◌%◌, Bool, true, false, not, Option, none, some, List, [], ◌∷◌, ◌++◌, map,
}
use spiceai.Prelude.Lists.{length, all}
use spiceai.Prelude.Tests.{if◌then◌else◌}
use spiceai.Prelude.Result.{Result, ok, err}
use spiceai.Arrow.{Schema}

pub record RecordBatch (Row : Type 0) : Type 0 where
  pub schema : Schema
  pub rows : List Row

-- The errors of `DataFusionError` that the table makes itself, and those of other code.
pub data Error (E : Type 0) : Type 0 where
  mismatch_between_schema_and_batches : Error E
  inserting_query_must_have_the_same_schema : Error E
  foreign : E → Error E

abbrev pub Partitions : Type 0 → Type 0
Partitions Row = List (List (RecordBatch Row))

pub record MemTable (Row : Type 0) : Type 0 where
  pub schema : Schema
  pub batches : Partitions Row

module _ {Row : Type 0} where
  unfoldable pub num_rows : RecordBatch Row → ℕ
  num_rows b = length b.rows

  -- `partitions.iter().flatten()`, each batch with the test `schema.contains`.
  unfoldable pub contains_all : (Schema → Schema → Bool) → Schema → Partitions Row → Bool
  contains_all contains schema = all (all (λ (b : RecordBatch Row). contains schema b.schema))

  unfoldable pub at_least_one : Partitions Row → Partitions Row
  at_least_one [] = [] ∷ []
  at_least_one (p ∷ ps) = p ∷ ps

  unfoldable pub try_new :
      {E : Type 0}
      → (Schema → Schema → Bool)
      → Schema
      → Partitions Row
      → Result (Error E) (MemTable Row)
  unfolding contains_all at_least_one all
  try_new contains schema partitions =
      if contains_all contains schema partitions
      then ok (record { schema = schema; batches = at_least_one partitions })
      else err mismatch_between_schema_and_batches

  -- `new_batches[i].push(batch)`
  unfoldable pub push_at : Partitions Row → ℕ → RecordBatch Row → Option (Partitions Row)
  push_at [] i b = none
  push_at (p ∷ ps) zero b = some ((p ++ b ∷ []) ∷ ps)
  push_at (p ∷ ps) (suc i) b = elim (push_at ps i b) [ none ↦ none | some qs ↦ some (p ∷ qs) ]

  -- `vec![vec![]; n]`
  unfoldable pub empty_partitions : ℕ → Partitions Row
  empty_partitions zero = []
  empty_partitions (suc n) = [] ∷ empty_partitions n

  -- The `while let` loop of `write_all`: the batches are dealt out round robin. `check` is
  -- `check_and_mark_retriable_error` of another crate.
  unfoldable pub deal :
      {E : Type 0}
      → (E → E)
      → ℕ
      → List (Result E (RecordBatch Row))
      → Partitions Row
      → ℕ
      → ℕ
      → Option (Result E (Partitions Row × ℕ))
  deal check num_partitions [] new_batches i row_count = some (ok (new_batches, row_count))
  deal check num_partitions (err e ∷ data_) new_batches i row_count = some (err (check e))
  deal check num_partitions (ok batch ∷ data_) new_batches i row_count =
      elim (push_at new_batches i batch) [
        | none ↦ none
        | some pushed ↦
            deal check num_partitions data_ pushed ((i + 1) % num_partitions)
              (row_count + num_rows batch)
      ]

  -- The loop over the targets, zipped with the new batches.
  unfoldable pub write_targets : Bool → Partitions Row → Partitions Row → Partitions Row
  write_targets overwrite [] new = []
  write_targets overwrite (target ∷ targets) [] = target ∷ targets
  write_targets overwrite (target ∷ targets) (batches ∷ new) =
      ((if overwrite then [] else target) ++ batches) ∷ write_targets overwrite targets new

  -- `MemSink::write_all`: the result and the partitions behind it.
  unfoldable pub write_all :
      {E : Type 0}
      → (E → E)
      → Partitions Row
      → Bool
      → List (Result E (RecordBatch Row))
      → Option (Result E ℕ × Partitions Row)
  write_all check batches overwrite data_ =
      elim (deal check (length batches) data_ (empty_partitions (length batches)) 0 0) [
        | none ↦ none
        | some (err e) ↦ some (err e, batches)
        | some (ok (new_batches, row_count)) ↦
            some (ok row_count, write_targets overwrite batches new_batches)
      ]

  -- `insert_into` and the execution of its plan on an input of that schema.
  unfoldable pub insert_into :
      {E : Type 0}
      → (E → E)
      → (Schema → Schema → Bool)
      → MemTable Row
      → Schema
      → List (Result E (RecordBatch Row))
      → Bool
      → Option (Result (Error E) ℕ × MemTable Row)
  insert_into check equivalent self input_schema input overwrite =
      if not (equivalent self.schema input_schema)
      then some (err inserting_query_must_have_the_same_schema, self)
      else elim (write_all check self.batches overwrite input) [
        | none ↦ none
        | some (ok n, batches) ↦ some (ok n, record self { batches = batches })
        | some (err e, batches) ↦ some (err (foreign e), record self { batches = batches })
      ]

  -- `scan` reads the partitions as they are.
  unfoldable pub scan : MemTable Row → Partitions Row
  scan self = self.batches
