-- ===== src/Dataset.antt =====
-- crates/runtime/src/component/dataset.rs: a dataset, its conversion from a Spicepod and what is
-- read of it.
--
-- `Column`, `Embedding` and `App` are types of other parts. The parsers of table references and of
-- durations are parameters, as is the product of a duration with 0.1. Warnings are left out, and the
-- lookup of an accelerator's state too.
pub mod Source
pub mod Settings
use spiceai.Prelude.{ℕ, ◌+◌, Bool, true, false, ◌&&◌, ◌||◌, Option, none, some, List, []}
use spiceai.Prelude.Lists.{drop}
use spiceai.Prelude.Tests.{if◌then◌else◌}
use spiceai.Prelude.Text.{Text, codes, ◌==◌, before, find_byte}
use spiceai.Prelude.Result.{Result, ok, err, ◌>>=◌, map_err}
use spiceai.Arrow.{Schema}
use spiceai.Refresh.{TimeFormat}
use spiceai.Acceleration.{
  Error as AccelerationError, Mode as AccelerationMode, Engine, Acceleration,
}
use spiceai.Acceleration.Spicepod
use spiceai.Acceleration.Convert

-- `TableReference` of another crate.
pub data TableReference : Type 0 where
  bare : Text → TableReference
  partial : Text → Text → TableReference
  full : Text → Text → Text → TableReference

pub data Mode : Type 0 where
  read read_write : Mode

pub data Error : Type 0 where
  dataset_name_includes_catalog : Text → Text → Error
  invalid_acceleration : AccelerationError → Error

-- `spicepod::component::dataset::Dataset`, less what the conversion does not read. `Mode` and
-- `TimeFormat` have the same constructors there.
pub record SpicepodDataset (Embedding : Type 0) : Type 0 where
  pub «from» : Text
  pub name : Text
  pub mode : Mode
  pub params : Option Spicepod.Params
  pub has_metadata_table : Option Bool
  -- `enabled` of the `Replication`.
  pub replication : Option Bool
  pub time_column : Option Text
  pub time_format : Option TimeFormat
  pub acceleration : Option Spicepod.Acceleration
  pub embeddings : List Embedding

pub record Dataset (Column Embedding App : Type 0) : Type 0 where
  pub «from» : Text
  pub name : TableReference
  pub mode : Mode
  pub params : List (Text × Text)
  pub has_metadata_table : Bool
  pub replication : Option Bool
  pub time_column : Option Text
  pub time_format : Option TimeFormat
  pub acceleration : Option (Acceleration Column)
  pub embeddings : List Embedding
  pub app : Option App
  pub schema : Option Schema

unfoldable pub have_metadata_table_by_default : Bool
have_metadata_table_by_default = false

unfoldable pub metadata_table : Option Bool → Bool
metadata_table none = have_metadata_table_by_default
metadata_table (some b) = b

unfoldable pub parse_table_reference : (Text → TableReference) → Text → Result Error TableReference
parse_table_reference parse_str name = elim (parse_str name) [
  | bare table ↦ ok (bare table)
  | partial schema table ↦ ok (partial schema table)
  | full catalog schema table ↦ err (dataset_name_includes_catalog catalog name)
]

-- `map(Acceleration::try_from).transpose()`
unfoldable pub transpose : {A B E : Type 0} → (A → Result E B) → Option A → Result E (Option B)
transpose f none = ok none
transpose f (some a) = do b ← f a; ok (some b)

module _ {Column Embedding App : Type 0} (parse_str : Text → TableReference) where
  unfoldable pub try_new : Text → Text → Result Error (Dataset Column Embedding App)
  try_new source name = do
    table_reference ← parse_table_reference parse_str name
    ok (record {
      «from» = source;
      name = table_reference;
      mode = read;
      params = [];
      has_metadata_table = have_metadata_table_by_default;
      replication = none;
      time_column = none;
      time_format = none;
      acceleration = none;
      embeddings = [];
      app = none;
      schema = none;
    })

  unfoldable pub try_from :
      (Spicepod.Acceleration → Result AccelerationError (Acceleration Column))
      → SpicepodDataset Embedding
      → Result Error (Dataset Column Embedding App)
  try_from accelerate dataset = do
    acceleration ← map_err invalid_acceleration (transpose accelerate dataset.acceleration)
    table_reference ← parse_table_reference parse_str dataset.name
    ok (record {
      «from» = dataset.«from»;
      name = table_reference;
      mode = dataset.mode;
      params = Convert.string_map dataset.params;
      has_metadata_table = metadata_table dataset.has_metadata_table;
      replication = dataset.replication;
      time_column = dataset.time_column;
      time_format = dataset.time_format;
      acceleration = acceleration;
      embeddings = dataset.embeddings;
      app = none;
      schema = none;
    })

unfoldable pub jitter_of : (ℕ → ℕ) → Option ℕ → Option ℕ → Option ℕ
jitter_of tenth interval (some jitter) = some jitter
jitter_of tenth (some i) none = some (tenth i)
jitter_of tenth none none = none

-- A text that is no duration is as good as none.
unfoldable pub duration_of : (Text → Result Text ℕ) → Option Text → Option ℕ
duration_of parse_duration none = none
duration_of parse_duration (some t) = elim (parse_duration t) [ ok d ↦ some d | err e ↦ none ]

unfoldable pub is_file : AccelerationMode → Bool
is_file AccelerationMode.file = true
is_file AccelerationMode.memory = false

unfoldable pub is_postgres : Engine → Bool
is_postgres Engine.postgres = true
is_postgres _ = false

module _ {Column Embedding App : Type 0} where
  unfoldable pub with_app : App → Dataset Column Embedding App → Dataset Column Embedding App
  with_app app self = record self { app = some app }

  unfoldable pub with_schema : Schema → Dataset Column Embedding App → Dataset Column Embedding App
  with_schema schema self = record self { schema = some schema }

  -- The first part of `splitn(2, ':')`, where there are two.
  unfoldable pub source : Dataset Column Embedding App → Text
  source self = elim (find_byte b':' self.«from») [
    | some index ↦ before b':' self.«from»
    | none ↦
        if self.«from» == codes "sink" || self.«from» == [] then codes "sink" else codes "spiceai"
  ]

  unfoldable pub path : Dataset Column Embedding App → Text
  path self = elim (find_byte b':' self.«from») [
    | some index ↦ drop (index + 1) self.«from»
    | none ↦ self.«from»
  ]

  -- `if let Some(acceleration) = &self.acceleration { .. }` with what follows it.
  unfoldable pub of_acceleration :
      {A : Type 0} → A → (Acceleration Column → A) → Dataset Column Embedding App → A
  of_acceleration otherwise f self = elim self.acceleration [
    | none ↦ otherwise
    | some acceleration ↦ f acceleration
  ]

  unfoldable pub refresh_check_interval : Dataset Column Embedding App → Option ℕ
  refresh_check_interval = of_acceleration none (λ a. a.refresh_check_interval)

  -- `tenth` is `mul_f64(0.1)`.
  unfoldable pub refresh_max_jitter : (ℕ → ℕ) → Dataset Column Embedding App → Option ℕ
  refresh_max_jitter tenth self =
      of_acceleration none
        (λ a.
          if a.refresh_jitter_enabled
          then jitter_of tenth (refresh_check_interval self) a.refresh_jitter_max
          else none)
        self

  unfoldable pub retention_check_interval :
      (Text → Result Text ℕ) → Dataset Column Embedding App → Option ℕ
  retention_check_interval parse_duration =
      of_acceleration none (λ a. duration_of parse_duration a.retention_check_interval)

  unfoldable pub retention_period : (Text → Result Text ℕ) → Dataset Column Embedding App → Option ℕ
  retention_period parse_duration =
      of_acceleration none (λ a. duration_of parse_duration a.retention_period)

  unfoldable pub refresh_sql : Dataset Column Embedding App → Option Text
  refresh_sql = of_acceleration none (λ a. a.refresh_sql)

  unfoldable pub refresh_data_window :
      (Text → Result Text ℕ) → Dataset Column Embedding App → Option ℕ
  refresh_data_window parse_duration =
      of_acceleration none (λ a. duration_of parse_duration a.refresh_data_window)

  unfoldable pub refresh_retry_enabled : Dataset Column Embedding App → Bool
  refresh_retry_enabled = of_acceleration false (λ a. a.refresh_retry_enabled)

  unfoldable pub refresh_retry_max_attempts : Dataset Column Embedding App → Option ℕ
  refresh_retry_max_attempts = of_acceleration none (λ a. a.refresh_retry_max_attempts)

  unfoldable pub is_accelerated : Dataset Column Embedding App → Bool
  is_accelerated = of_acceleration false (λ a. a.enabled)

  unfoldable pub is_file_accelerated : Dataset Column Embedding App → Bool
  is_file_accelerated =
      of_acceleration false
        (λ a. if is_postgres a.engine then true else a.enabled && is_file a.mode)
