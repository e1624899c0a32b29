-- ===== src/HealthMonitor.antt =====
-- crates/runtime/src/datasets_health_monitor.rs: which datasets are checked and what is reported.
--
-- Times are nanoseconds since the epoch. The gauge keeps the last time that was recorded for a
-- dataset, `none` for the value 0 of a dataset that is available. A map is a list of entries.
pub mod Reports
use spiceai.Prelude.{ℕ, ◌-◌, ◌*◌, ◌/◌, Bool, not, Option, none, some, List, [], ◌∷◌, map}
use spiceai.Prelude.Tests.{if◌then◌else◌, ltb}
use spiceai.Prelude.Result.{Result, ok, err, ◌>>=◌}
use spiceai.Prelude.Text.{Text, ◌==◌}
use spiceai.Dataset.{TableReference, Dataset, is_accelerated}
use spiceai.ExecutionPlan.{TableScanParams, TableProvider}

abbrev pub dataset_unavailable_threshold_seconds : ℕ
dataset_unavailable_threshold_seconds = 10 * 60

-- `DatasetAvailabilityInfo`
pub record DatasetAvailabilityInfo (Table : Type 0) : Type 0 where
  pub name : Text
  pub table_provider : Table
  pub last_available_time : ℕ

-- `AvailabilityVerificationResult`, without the message, which is only logged.
pub data AvailabilityVerificationResult : Type 0 where
  available : AvailabilityVerificationResult
  unavailable : ℕ → AvailabilityVerificationResult

module _ {V : Type 0} where
  unfoldable pub remove : Text → List (Text × V) → List (Text × V)
  remove key [] = []
  remove key (entry ∷ entries) =
      let rest = remove key entries in if entry.0 == key then rest else entry ∷ rest

  unfoldable pub insert : Text → V → List (Text × V) → List (Text × V)
  insert key value entries = (key, value) ∷ remove key entries

-- The datasets that are monitored, and the gauge.
pub record Monitor (Table : Type 0) : Type 0 where
  pub monitored_datasets : List (Text × DatasetAvailabilityInfo Table)
  pub unavailable_time : List (Text × Option ℕ)

module _ {Table : Type 0} where
  unfoldable pub report_dataset_unavailable_time : Text → Option ℕ → Monitor Table → Monitor Table
  report_dataset_unavailable_time name time self = record self {
    unavailable_time = insert name time self.unavailable_time;
  }

  -- `get_mut` and the write to what it finds.
  unfoldable pub set_available :
      Text
      → ℕ
      → List (Text × DatasetAvailabilityInfo Table)
      → List (Text × DatasetAvailabilityInfo Table)
  set_available name now [] = []
  set_available name now (entry ∷ entries) =
      let rest = set_available name now entries in
      if entry.0 == name
      then (entry.0, record (entry.1) { last_available_time = now }) ∷ entries
      else entry ∷ rest

  unfoldable pub update_dataset_availability_info :
      ℕ → Text → AvailabilityVerificationResult → Monitor Table → Monitor Table
  update_dataset_availability_info now name available self =
      report_dataset_unavailable_time name none
        (record self { monitored_datasets = set_available name now self.monitored_datasets })
  update_dataset_availability_info now name (unavailable time) self =
      report_dataset_unavailable_time name (some time) self

  -- `duration_since` gives zero where the clock was behind.
  unfoldable pub is_overdue : ℕ → DatasetAvailabilityInfo Table → Bool
  is_overdue now item =
      ltb dataset_unavailable_threshold_seconds ((now - item.last_available_time) / 1000000000)

  unfoldable pub datasets_for_availability_check :
      ℕ → List (Text × DatasetAvailabilityInfo Table) → List (DatasetAvailabilityInfo Table)
  datasets_for_availability_check now [] = []
  datasets_for_availability_check now (entry ∷ entries) =
      let rest = datasets_for_availability_check now entries in
      if is_overdue now entry.1 then entry.1 ∷ rest else rest

  unfoldable pub deregister_dataset : Text → Monitor Table → Monitor Table
  deregister_dataset name self = record self {
    monitored_datasets = remove name self.monitored_datasets;
  }

  unfoldable pub register_table : ℕ → Text → Table → Monitor Table → Monitor Table
  register_table now name table_provider self =
      report_dataset_unavailable_time name none (record self {
        monitored_datasets =
            insert name
              (record { name = name; table_provider = table_provider; last_available_time = now })
              self.monitored_datasets;
      })

module _ {Column Embedding App Table E : Type 0} (to_string : TableReference → Text)
    (get_table_provider : TableReference → Result E Table) where
  unfoldable pub register_dataset :
      ℕ → Dataset Column Embedding App → Monitor Table → Result E (Monitor Table)
  register_dataset now dataset self =
      if is_accelerated dataset
      then ok self
      else (get_table_provider dataset.name >>= λ table.
          ok (register_table now (to_string dataset.name) table self))

module _ {Batch E : Type 0} where
  unfoldable pub try_collect : List (Result E Batch) → Result E (List Batch)
  try_collect [] = ok []
  try_collect (item ∷ stream) =
      item >>= λ batch. (try_collect stream >>= λ batches. ok (batch ∷ batches))

module _ {Field Batch Expr E : Type 0} where
  unfoldable pub test_connectivity : TableProvider Field Batch Expr E → Result E (Unit {0})
  test_connectivity table_provider =
      table_provider.scan (record { projection = none; filters = []; limit = some 1 }) >>= λ plan.
      (plan.execute 0 >>= λ stream. (try_collect stream >>= λ _. ok tt))

module _ {Table E : Type 0} where
  unfoldable pub verification :
      DatasetAvailabilityInfo Table → Result E (Unit {0}) → AvailabilityVerificationResult
  verification item (ok _) = available
  verification item (err _) = unavailable item.last_available_time

module _ {Table Field Batch Expr E : Type 0} where
  -- The task for one dataset: `table` is what its provider answers when it is tested.
  unfoldable pub verify :
      ℕ
      → DatasetAvailabilityInfo Table
      → TableProvider Field Batch Expr E
      → Monitor Table
      → Monitor Table
  verify now item table self =
      update_dataset_availability_info now item.name (verification item (test_connectivity table))
        self
