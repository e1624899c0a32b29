-- ===== src/Tests/Constraints.antt =====
-- The theorems on constraints at concrete inputs: a column reference is one name.
use spiceai.Prelude.{◌≡◌, refl, true, false, none, some, List, [], ◌∷◌, map}
use spiceai.Prelude.Text.{Text, codes}
use spiceai.Prelude.Result.{Result, ok}
use spiceai.Arrow.{DataType, Field, Schema}
use spiceai.Acceleration.{Mode, ZeroResultsAction, Engine, IndexType, Acceleration}
use spiceai.Acceleration.OnConflict.{on_conflict_targets}
use spiceai.Acceleration.Constraints.{
  TableConstraint, unique_key, primary_key, index_constraints, key_constraints, table_constraints,
  is_empty,
}
use spiceai.Acceleration.Constraints.Columns.{constrained, table_constraints-names}

abbrev settings : Acceleration Text
settings = record {
  enabled = true;
  mode = Mode.memory;
  engine = Engine.sqlite;
  refresh_mode = none;
  refresh_check_interval = none;
  refresh_sql = none;
  refresh_data_window = none;
  refresh_append_overlap = none;
  refresh_retry_enabled = true;
  refresh_retry_max_attempts = none;
  refresh_jitter_enabled = false;
  refresh_jitter_max = none;
  params = [];
  retention_period = none;
  retention_check_interval = none;
  retention_check_enabled = false;
  on_zero_results = ZeroResultsAction.return_empty;
  indexes = (codes "at", IndexType.enabled) ∷ (codes "name", IndexType.unique) ∷ [];
  primary_key = some (codes "id");
  on_conflict = [];
  disable_query_push_down = false;
}

abbrev one : Text → List Text
one c = c ∷ []

abbrev field : Text → Field
field name = record { name = name; data_type = DataType.utf8 }

abbrev whole : Schema
whole = field (codes "id") ∷ field (codes "name") ∷ field (codes "at") ∷ []

abbrev part : Schema
part = field (codes "id") ∷ field (codes "at") ∷ []

abbrev flattened : Schema → List Text
flattened = map (λ f. f.name)

abbrev keep : List TableConstraint → Schema → Result Text (List TableConstraint)
keep cs schema = ok cs

abbrev built : List TableConstraint
built = unique_key (one (codes "name")) ∷ primary_key (one (codes "id")) ∷ []

table_constraints-names_example :
    (cs : List TableConstraint) × (keep cs whole ≡ ok built)
    × (map constrained cs ≡ map one (on_conflict_targets settings))
unfolding table_constraints is_empty index_constraints key_constraints
table_constraints-names_example = table_constraints-names one settings keep whole built refl
