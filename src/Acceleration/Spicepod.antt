-- ===== src/Acceleration/Spicepod.antt =====
-- crates/spicepod/src/component/dataset.rs (`acceleration`) and params.rs: what the file of a
-- Spicepod says of an acceleration.
--
-- A `HashMap` is a list of its entries. Of a number among the parameters only the text is read that
-- `to_string` prints, and it stands for the number. A count of nanoseconds stands for a `Duration`.
use spiceai.Prelude.{ℕ, Bool, true, false, Option, none, some, List, [], ◌∷◌}
use spiceai.Prelude.Tests.{if◌then◌else◌}
use spiceai.Prelude.Text.{Text, codes, ◌==◌}

pub data RefreshMode : Type 0 where
  full append changes : RefreshMode

pub data Mode : Type 0 where
  memory file : Mode

pub data ZeroResultsAction : Type 0 where
  return_empty use_source : ZeroResultsAction

pub data IndexType : Type 0 where
  enabled unique : IndexType

pub data OnConflictBehavior : Type 0 where
  drop upsert : OnConflictBehavior

pub data ParamValue : Type 0 where
  string int float : Text → ParamValue
  bool : Bool → ParamValue

unfoldable pub as_string : ParamValue → Text
as_string (string value) = value
as_string (int value) = value
as_string (float value) = value
as_string (bool value) = if value then codes "true" else codes "false"

abbrev pub Params : Type 0
Params = List (Text × ParamValue)

unfoldable pub as_string_map : Params → List (Text × Text)
as_string_map [] = []
as_string_map ((k, v) ∷ data_) = (k, as_string v) ∷ as_string_map data_

-- `HashMap::remove`: the value that was there, and what is left.
unfoldable pub remove : Text → Params → Option ParamValue × Params
remove key [] = (none, [])
remove key ((k, v) ∷ data_) =
    let (found, rest) = remove key data_ in
    if k == key then (some v, rest) else (found, (k, v) ∷ rest)

pub record Acceleration : Type 0 where
  pub enabled : Bool
  pub mode : Mode
  pub engine : Option Text
  pub refresh_mode : Option RefreshMode
  pub refresh_check_interval : Option Text
  pub refresh_sql : Option Text
  pub refresh_data_window : Option Text
  pub refresh_append_overlap : Option Text
  pub refresh_retry_enabled : Bool
  pub refresh_retry_max_attempts : Option ℕ
  pub refresh_jitter_enabled : Bool
  pub refresh_jitter_max : Option Text
  pub params : Option Params
  pub retention_period : Option Text
  pub retention_check_interval : Option Text
  pub retention_check_enabled : Bool
  pub on_zero_results : ZeroResultsAction
  pub indexes : List (Text × IndexType)
  pub primary_key : Option Text
  pub on_conflict : List (Text × OnConflictBehavior)

unfoldable pub default : Acceleration
default = record {
  enabled = true;
  mode = memory;
  engine = none;
  refresh_mode = none;
  refresh_check_interval = none;
  refresh_sql = none;
  refresh_data_window = none;
  refresh_append_overlap = none;
  refresh_retry_enabled = true;
  refresh_retry_max_attempts = none;
  refresh_jitter_enabled = false;
  refresh_jitter_max = none;
  params = none;
  retention_period = none;
  retention_check_interval = none;
  retention_check_enabled = false;
  on_zero_results = return_empty;
  indexes = [];
  primary_key = none;
  on_conflict = [];
}
