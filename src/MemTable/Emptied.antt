-- ===== src/MemTable/Emptied.antt =====
-- What a deletion does to a table that holds a batch which its schema does not contain:
-- crates/data_components/src/arrow/write.rs.
use spiceai.Prelude.{Bool, List, [], ◌∷◌, ◌++◌}
use spiceai.Prelude.Lists.{length}
use spiceai.Prelude.Tests.{if◌then◌else◌}
use spiceai.MemTable.{RecordBatch, Partitions, MemTable, empty_partitions, write_targets}

module _ {Row E : Type 0} (check : E → E) (b : RecordBatch Row) (overwrite : Bool)
    (target : List (RecordBatch Row)) (targets : Partitions Row) where
  -- One batch goes into the first partition.
  abbrev pub with_batch : Partitions Row
  with_batch =
      ((if overwrite then [] else target) ++ (b ∷ []))
      ∷ write_targets overwrite targets (empty_partitions (length targets))
