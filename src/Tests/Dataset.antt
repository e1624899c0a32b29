-- ===== src/Tests/Dataset.antt =====
-- The theorems on datasets at concrete inputs.
use spiceai.Prelude.{ℕ, ◌/◌, ◌≤◌, true, false, none, some, [], arith}
use spiceai.Prelude.Text.{Text, codes}
use spiceai.Prelude.Result.{Result, ok}
use spiceai.Acceleration.{
  Mode as AccelerationMode, ZeroResultsAction as AccelerationZeroResultsAction,
  Error as AccelerationError, Engine, Acceleration,
}
use spiceai.Acceleration.Spicepod
use spiceai.Dataset.{
  TableReference, full, Mode, Error, dataset_name_includes_catalog, SpicepodDataset, Dataset,
}

abbrev acceleration : Acceleration Text
acceleration = record {
  enabled = false;
  mode = AccelerationMode.memory;
  engine = Engine.postgres;
  refresh_mode = none;
  refresh_check_interval = some 100;
  refresh_sql = none;
  refresh_data_window = none;
  refresh_append_overlap = none;
  refresh_retry_enabled = true;
  refresh_retry_max_attempts = none;
  refresh_jitter_enabled = true;
  refresh_jitter_max = none;
  params = [];
  retention_period = none;
  retention_check_interval = none;
  retention_check_enabled = false;
  on_zero_results = AccelerationZeroResultsAction.return_empty;
  indexes = [];
  primary_key = none;
  on_conflict = [];
  disable_query_push_down = false;
}

abbrev dataset : Dataset Text Text Text
dataset = record {
  «from» = codes "s3:bucket:key";
  name = TableReference.bare (codes "t");
  mode = Mode.read;
  params = [];
  has_metadata_table = false;
  replication = none;
  time_column = none;
  time_format = none;
  acceleration = some acceleration;
  embeddings = [];
  app = none;
  schema = none;
}

abbrev pod : SpicepodDataset Text
pod = record {
  «from» = codes "s3:bucket";
  name = codes "c.s.t";
  mode = Mode.read;
  params = none;
  has_metadata_table = none;
  replication = none;
  time_column = none;
  time_format = none;
  acceleration = none;
  embeddings = [];
}

abbrev parse_str : Text → TableReference
parse_str name = full (codes "c") (codes "s") (codes "t")

abbrev accelerate : Spicepod.Acceleration → Result AccelerationError (Acceleration Text)
accelerate a = ok acceleration

abbrev refused : Error
refused = dataset_name_includes_catalog (codes "c") (codes "c.s.t")

abbrev tenth : ℕ → ℕ
tenth d = d / 10

tenth-le : (d : ℕ) → tenth d ≤ d
tenth-le d = omega arith
