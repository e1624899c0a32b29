-- ===== src/Tests/HealthMonitor.antt =====
-- The health monitor, at a concrete run.
use spiceai.Prelude.{ℕ, ◌-◌, ◌/◌, ◌<◌, false, none, some, [], ◌∷◌, ◌≡◌, refl, arith}
use spiceai.Prelude.Lists.{here}
use spiceai.Prelude.Result.{Result, ok, err}
use spiceai.Prelude.Text.{Text, codes, ◌==◌}
use spiceai.Dataset.{
  TableReference, bare, partial, full, Mode, Dataset, is_accelerated, of_acceleration,
}
use spiceai.ExecutionPlan.{TableProvider}
use spiceai.HealthMonitor.{
  DatasetAvailabilityInfo, Monitor, register_dataset, register_table,
  report_dataset_unavailable_time, remove, insert, datasets_for_availability_check, is_overdue,
  verify, verification, test_connectivity, update_dataset_availability_info, set_available,
  deregister_dataset,
}
use spiceai.HealthMonitor.Reports.{
  State, new, Reachable, started, passes, registers, checks, verifies, Reachable-reported,
}

abbrev dataset : Dataset Text Text Text
dataset = record {
  «from» = codes "s3:bucket";
  name = bare (codes "t");
  mode = Mode.read;
  params = [];
  has_metadata_table = false;
  replication = none;
  time_column = none;
  time_format = none;
  acceleration = none;
  embeddings = [];
  app = none;
  schema = none;
}

abbrev to_string : TableReference → Text
to_string (bare t) = t
to_string (partial s t) = t
to_string (full c s t) = t

abbrev tables : TableReference → Result Text ℕ
tables name = ok 7

abbrev failing : TableProvider Text Text Text Text
failing = record { schema = []; scan = λ _. err (codes "unreachable") }

abbrev info : DatasetAvailabilityInfo ℕ
info = record { name = codes "t"; table_provider = 7; last_available_time = 1000000000 }

-- One dataset, registered after a second.
abbrev registered : State ℕ
registered = record {
  now = 1000000000;
  monitor = record {
    monitored_datasets = (codes "t", info) ∷ [];
    unavailable_time = (codes "t", none) ∷ [];
  };
  tasks = [];
}

-- It does not answer 701 seconds later.
abbrev failed : State ℕ
failed = record {
  now = 702000000000;
  monitor = record {
    monitored_datasets = (codes "t", info) ∷ [];
    unavailable_time = (codes "t", some 1000000000) ∷ [];
  };
  tasks = [];
}

abbrev Run : State ℕ → Type 1
Run = Reachable Text Text Text Text Text Text Text to_string 1000000000

registered-Run : Run registered
unfolding register_dataset register_table report_dataset_unavailable_time insert remove
    is_accelerated of_acceleration
registered-Run = registers (new 1000000000) registered.monitor dataset tables refl started

failed-Run : Run failed
unfolding datasets_for_availability_check is_overdue verify verification test_connectivity
    update_dataset_availability_info report_dataset_unavailable_time insert remove ◌==◌
failed-Run =
    verifies (record registered { now = 702000000000; tasks = info ∷ [] }) [] [] info failing refl
      (checks (record registered { now = 702000000000 }) refl
        (passes registered 702000000000 (omega arith) registered-Run))

Reachable-reported_example : 600 < (702000000000 - 1000000000) / 1000000000
Reachable-reported_example =
    Reachable-reported Text Text Text Text Text Text Text to_string 1000000000 failed (codes "t")
      1000000000 failed-Run (here refl)

-- A dataset that answers is reported as available, with the time of the test.
abbrev answering : TableProvider Text Text Text Text
answering = record {
  schema = [];
  scan = λ _. ok (record { schema = []; partition_count = 1; execute = λ _. ok [] });
}

verify-answering : verify 702000000000 info answering registered.monitor ≡ record {
  monitored_datasets = (codes "t", record info { last_available_time = 702000000000 }) ∷ [];
  unavailable_time = (codes "t", none) ∷ [];
}
unfolding verify verification update_dataset_availability_info test_connectivity
    spiceai.HealthMonitor.try_collect report_dataset_unavailable_time set_available insert ◌==◌
    remove
verify-answering = refl

-- A task that is under way when its dataset is removed reports it again, and nothing takes it back.
verify-deregistered :
    (verify 702000000000 info failing
      (deregister_dataset (codes "t") registered.monitor)).unavailable_time
    ≡ (codes "t", some 1000000000) ∷ []
unfolding verify verification update_dataset_availability_info test_connectivity
    report_dataset_unavailable_time insert remove deregister_dataset ◌==◌
verify-deregistered = refl
