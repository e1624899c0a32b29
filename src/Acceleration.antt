-- ===== src/Acceleration.antt =====
-- crates/runtime/src/component/dataset/acceleration.rs: the settings of an acceleration.
--
-- `Column` is the type of references to columns of another crate.
pub mod Spicepod
pub mod Convert
pub mod OnConflict
pub mod Constraints
pub mod Accepted
pub mod Refused
use spiceai.Prelude.{ℕ, Bool, true, false, Option, none, some, List, [], ◌∷◌, ◌||◌}
use spiceai.Prelude.Tests.{if◌then◌else◌}
use spiceai.Prelude.Text.{Text, codes, ◌==◌}
use spiceai.Prelude.Result.{Result, ok, err}
use spiceai.Refresh.{RefreshMode}

pub data Mode : Type 0 where
  memory file : Mode

pub data ZeroResultsAction : Type 0 where
  return_empty use_source : ZeroResultsAction

pub data Engine : Type 0 where
  arrow duckdb sqlite postgres : Engine

pub data IndexType : Type 0 where
  enabled unique : IndexType

pub data OnConflictBehavior : Type 0 where
  drop upsert : OnConflictBehavior

-- The errors of `crate::Error` and of a dataset that the conversion and the conflicts give; the
-- messages of foreign errors are texts.
pub data Error : Type 0 where
  unable_to_parse_column_reference : Text → Text → Error
  unable_to_parse_field_as_duration : Text → Text → Error
  accelerator_engine_not_available : Text → Error
  on_conflict_target_mismatch : Error

-- The texts of `Display`.
unfoldable pub engine_name : Engine → Text
engine_name arrow = codes "arrow"
engine_name duckdb = codes "duckdb"
engine_name sqlite = codes "sqlite"
engine_name postgres = codes "postgres"

unfoldable pub mode_name : Mode → Text
mode_name memory = codes "memory"
mode_name file = codes "file"

unfoldable pub zero_results_action_name : ZeroResultsAction → Text
zero_results_action_name return_empty = codes "return_empty"
zero_results_action_name use_source = codes "use_source"

unfoldable pub index_type_name : IndexType → Text
index_type_name enabled = codes "enabled"
index_type_name unique = codes "unique"

unfoldable pub on_conflict_behavior_name : OnConflictBehavior → Text
on_conflict_behavior_name drop = codes "drop"
on_conflict_behavior_name upsert = codes "upsert"

module _ (to_lowercase : Text → Text) where
  -- `TryFrom<&str> for Engine`
  unfoldable pub engine_try_from : Text → Result Error Engine
  engine_try_from engine =
      let name = to_lowercase engine in
      if name == codes "arrow"
      then ok arrow
      else if name == codes "duckdb"
      then ok duckdb
      else if name == codes "sqlite"
      then ok sqlite
      else if name == codes "postgres" || name == codes "postgresql"
      then ok postgres
      else err (accelerator_engine_not_available engine)

  -- `From<&str> for IndexType`
  unfoldable pub index_type_from : Text → IndexType
  index_type_from index_type = if to_lowercase index_type == codes "unique" then unique else enabled

  -- `From<&str> for OnConflictBehavior`
  unfoldable pub on_conflict_behavior_from : Text → OnConflictBehavior
  on_conflict_behavior_from behavior =
      if to_lowercase behavior == codes "upsert" then upsert else drop

pub record Acceleration (Column : Type 0) : Type 0 where
  pub enabled : Bool
  pub mode : Mode
  pub engine : Engine
  pub refresh_mode : Option RefreshMode
  pub refresh_check_interval : Option ℕ
  pub refresh_sql : Option Text
  pub refresh_data_window : Option Text
  pub refresh_append_overlap : Option ℕ
  pub refresh_retry_enabled : Bool
  pub refresh_retry_max_attempts : Option ℕ
  pub refresh_jitter_enabled : Bool
  pub refresh_jitter_max : Option ℕ
  pub params : List (Text × Text)
  pub retention_period : Option Text
  pub retention_check_interval : Option Text
  pub retention_check_enabled : Bool
  pub on_zero_results : ZeroResultsAction
  pub indexes : List (Column × IndexType)
  pub primary_key : Option Column
  pub on_conflict : List (Column × OnConflictBehavior)
  pub disable_query_push_down : Bool

unfoldable pub default : {Column : Type 0} → Acceleration Column
default = record {
  enabled = true;
  mode = memory;
  engine = arrow;
  refresh_mode = none;
  refresh_check_interval = none;
  refresh_sql = none;
  refresh_data_window = none;
  refresh_append_overlap = none;
  refresh_retry_enabled = true;
  refresh_retry_max_attempts = none;
  refresh_jitter_enabled = false;
  refresh_jitter_max = none;
  params = [];
  retention_period = none;
  retention_check_interval = none;
  retention_check_enabled = false;
  on_zero_results = return_empty;
  indexes = [];
  primary_key = none;
  on_conflict = [];
  disable_query_push_down = false;
}
