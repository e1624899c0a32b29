-- ===== src/Acceleration/Convert.antt =====
-- crates/runtime/src/component/dataset/acceleration.rs: the conversion from a Spicepod.
--
-- The parsers of column references and of durations are those of other crates.
use spiceai.Prelude.{ℕ, Bool, false, Option, none, some, List, [], ◌∷◌}
use spiceai.Prelude.Tests.{if◌then◌else◌}
use spiceai.Prelude.Text.{Text, codes}
use spiceai.Prelude.Result.{Result, ok, err, ◌>>=◌, map_err}
use spiceai.Refresh.{RefreshMode}
use spiceai.Acceleration.Spicepod
use spiceai.Acceleration.{
  Mode, ZeroResultsAction, IndexType, OnConflictBehavior, Error, unable_to_parse_column_reference,
  unable_to_parse_field_as_duration, engine_try_from, Acceleration,
}

unfoldable pub refresh_mode_from : Spicepod.RefreshMode → RefreshMode
refresh_mode_from Spicepod.RefreshMode.full = RefreshMode.full
refresh_mode_from Spicepod.RefreshMode.append = RefreshMode.append
refresh_mode_from Spicepod.RefreshMode.changes = RefreshMode.changes

unfoldable pub mode_from : Spicepod.Mode → Mode
mode_from Spicepod.Mode.memory = Mode.memory
mode_from Spicepod.Mode.file = Mode.file

unfoldable pub zero_results_action_from : Spicepod.ZeroResultsAction → ZeroResultsAction
zero_results_action_from Spicepod.ZeroResultsAction.return_empty = ZeroResultsAction.return_empty
zero_results_action_from Spicepod.ZeroResultsAction.use_source = ZeroResultsAction.use_source

unfoldable pub index_type_of : Spicepod.IndexType → IndexType
index_type_of Spicepod.IndexType.enabled = IndexType.enabled
index_type_of Spicepod.IndexType.unique = IndexType.unique

unfoldable pub on_conflict_behavior_of : Spicepod.OnConflictBehavior → OnConflictBehavior
on_conflict_behavior_of Spicepod.OnConflictBehavior.drop = OnConflictBehavior.drop
on_conflict_behavior_of Spicepod.OnConflictBehavior.upsert = OnConflictBehavior.upsert

abbrev map_option : {A B : Type 0} → (A → B) → Option A → Option B
map_option f none = none
map_option f (some a) = some (f a)

-- The flag is taken out of the parameters, and read where it is a Boolean.
unfoldable pub push_down : Option Spicepod.ParamValue → Bool
push_down (some (Spicepod.ParamValue.bool value)) = value
push_down _ = false

abbrev pub flag : Text
flag = codes "disable_query_push_down"

-- `as_mut().and_then(|x| x.data.remove(..))`
unfoldable pub remove_flag :
    Option Spicepod.Params → Option Spicepod.ParamValue × Option Spicepod.Params
remove_flag none = (none, none)
remove_flag (some data_) = let (value, rest) = Spicepod.remove flag data_ in (value, some rest)

unfoldable pub string_map : Option Spicepod.Params → List (Text × Text)
string_map none = []
string_map (some data_) = Spicepod.as_string_map data_

abbrev pub engine_text : Option Text → Text
engine_text none = codes "arrow"
engine_text (some engine) = engine

module _ {Column : Type 0} (same : Column → Column → Bool) {A : Type 0} where
  -- `HashMap::insert`
  unfoldable pub insert : Column → A → List (Column × A) → List (Column × A)
  insert k v [] = (k, v) ∷ []
  insert k v ((j, w) ∷ m) = if same j k then (j, v) ∷ m else (j, w) ∷ insert k v m

module _ {Column : Type 0} (same : Column → Column → Bool)
    (parse_column : Text → Result Text Column) (parse_duration : Text → Result Text ℕ)
    (to_lowercase : Text → Text) where
  unfoldable pub try_parse_column_reference : Text → Result Error Column
  try_parse_column_reference column =
      map_err (unable_to_parse_column_reference column) (parse_column column)

  unfoldable pub try_parse_duration : Text → Option Text → Result Error (Option ℕ)
  try_parse_duration field none = ok none
  try_parse_duration field (some duration) = elim (parse_duration duration) [
    | ok d ↦ ok (some d)
    | err e ↦ err (unable_to_parse_field_as_duration field e)
  ]

  unfoldable pub parse_primary_key : Option Text → Result Error (Option Column)
  parse_primary_key none = ok none
  parse_primary_key (some pk) = do column ← try_parse_column_reference pk; ok (some column)

  -- The loops over `indexes` and `on_conflict`.
  unfoldable pub parse_columns :
      {A B : Type 0}
      → (A → B)
      → List (Text × A)
      → List (Column × B)
      → Result Error (List (Column × B))
  parse_columns f [] m = ok m
  parse_columns f ((k, v) ∷ rest) m = do
    column ← try_parse_column_reference k
    parse_columns f rest (insert same column (f v) m)

  unfoldable pub try_from : Spicepod.Acceleration → Result Error (Acceleration Column)
  try_from acceleration = do
    primary_key ← parse_primary_key acceleration.primary_key
    indexes ← parse_columns index_type_of acceleration.indexes []
    on_conflict ← parse_columns on_conflict_behavior_of acceleration.on_conflict []
    engine ← engine_try_from to_lowercase (engine_text acceleration.engine)
    refresh_check_interval ←
        try_parse_duration (codes "refresh_check_interval") acceleration.refresh_check_interval
    refresh_jitter_max ←
        try_parse_duration (codes "refresh_jitter_max") acceleration.refresh_jitter_max
    refresh_append_overlap ←
        try_parse_duration (codes "refresh_append_overlap") acceleration.refresh_append_overlap
    ok (record {
      enabled = acceleration.enabled;
      mode = mode_from acceleration.mode;
      engine = engine;
      refresh_mode = map_option refresh_mode_from acceleration.refresh_mode;
      refresh_check_interval = refresh_check_interval;
      refresh_sql = acceleration.refresh_sql;
      refresh_data_window = acceleration.refresh_data_window;
      refresh_append_overlap = refresh_append_overlap;
      refresh_retry_enabled = acceleration.refresh_retry_enabled;
      refresh_retry_max_attempts = acceleration.refresh_retry_max_attempts;
      refresh_jitter_enabled = acceleration.refresh_jitter_enabled;
      refresh_jitter_max = refresh_jitter_max;
      params = string_map (remove_flag acceleration.params).1;
      retention_period = acceleration.retention_period;
      retention_check_interval = acceleration.retention_check_interval;
      retention_check_enabled = acceleration.retention_check_enabled;
      on_zero_results = zero_results_action_from acceleration.on_zero_results;
      indexes = indexes;
      primary_key = primary_key;
      on_conflict = on_conflict;
      disable_query_push_down = push_down (remove_flag acceleration.params).0;
    })
