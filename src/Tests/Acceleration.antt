-- ===== src/Tests/Acceleration.antt =====
-- The theorems on accelerations at concrete inputs: a column reference is its text, a duration is
-- any text but `soon`, and texts are lower case already.
use spiceai.Prelude.{ℕ, true, false, none, some, [], ◌∷◌, ◌≡◌, refl}
use spiceai.Prelude.Lists.{length}
use spiceai.Prelude.Tests.{if◌then◌else◌}
use spiceai.Prelude.Text.{Text, codes, ◌==◌}
use spiceai.Prelude.Result.{Result, ok, err}
use spiceai.Acceleration.Spicepod
use spiceai.Acceleration.{
  Mode, ZeroResultsAction, Engine, IndexType, OnConflictBehavior, Error,
  unable_to_parse_field_as_duration, engine_try_from, engine_name, Acceleration, default,
}
use spiceai.Acceleration.Convert.{
  index_type_of, on_conflict_behavior_of, push_down, remove_flag, try_parse_duration,
  parse_primary_key, parse_columns, engine_text, try_from,
}
use spiceai.Acceleration.Refused.{IsRefused, try_from-err}

abbrev as_is : Text → Text
as_is s = s

abbrev parse_column : Text → Result Text Text
parse_column s = ok s

abbrev parse_duration : Text → Result Text ℕ
parse_duration s = if s == codes "soon" then err (codes "no number") else ok (length s)

abbrev pod : Spicepod.Acceleration
pod = record {
  enabled = true;
  mode = Spicepod.Mode.memory;
  engine = some (codes "sqlite");
  refresh_mode = none;
  refresh_check_interval = some (codes "10s");
  refresh_sql = none;
  refresh_data_window = none;
  refresh_append_overlap = none;
  refresh_retry_enabled = true;
  refresh_retry_max_attempts = none;
  refresh_jitter_enabled = false;
  refresh_jitter_max = none;
  params = none;
  retention_period = none;
  retention_check_interval = none;
  retention_check_enabled = false;
  on_zero_results = Spicepod.ZeroResultsAction.return_empty;
  indexes = [];
  primary_key = some (codes "id");
  on_conflict = [];
}

abbrev settings : Acceleration Text
settings = record {
  enabled = true;
  mode = Mode.memory;
  engine = Engine.sqlite;
  refresh_mode = none;
  refresh_check_interval = some 3;
  refresh_sql = none;
  refresh_data_window = none;
  refresh_append_overlap = none;
  refresh_retry_enabled = true;
  refresh_retry_max_attempts = none;
  refresh_jitter_enabled = false;
  refresh_jitter_max = none;
  params = [];
  retention_period = none;
  retention_check_interval = none;
  retention_check_enabled = false;
  on_zero_results = ZeroResultsAction.return_empty;
  indexes = [];
  primary_key = some (codes "id");
  on_conflict = [];
  disable_query_push_down = false;
}

pod-accepted : try_from ◌==◌ parse_column parse_duration as_is pod ≡ ok settings
unfolding try_from parse_primary_key spiceai.Acceleration.Convert.try_parse_column_reference
    parse_columns engine_try_from ◌==◌ try_parse_duration spiceai.Acceleration.Convert.mode_from
    spiceai.Acceleration.Convert.string_map spiceai.Acceleration.Convert.zero_results_action_from
    push_down remove_flag
pod-accepted = refl

abbrev late : Spicepod.Acceleration
late = record pod { refresh_jitter_max = some (codes "soon") }

abbrev refused : Error
refused = unable_to_parse_field_as_duration (codes "refresh_jitter_max") (codes "no number")

late-refused : try_from ◌==◌ parse_column parse_duration as_is late ≡ err refused
unfolding try_from parse_primary_key parse_columns engine_try_from ◌==◌ try_parse_duration
    spiceai.Acceleration.Convert.try_parse_column_reference
late-refused = refl

try_from-err_example : IsRefused parse_column parse_duration late refused
try_from-err_example = try_from-err ◌==◌ parse_column parse_duration as_is late refused late-refused

abbrev upserting : Acceleration Text
upserting = record settings { on_conflict = (codes "id", OnConflictBehavior.upsert) ∷ [] }

abbrev dropping : Acceleration Text
dropping = record settings {
  indexes = (codes "name", IndexType.unique) ∷ (codes "at", IndexType.enabled) ∷ [];
  on_conflict =
      (codes "id", OnConflictBehavior.drop) ∷ (codes "name", OnConflictBehavior.drop) ∷ [];
}
