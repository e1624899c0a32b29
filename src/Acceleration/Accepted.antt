-- ===== src/Acceleration/Accepted.antt =====
-- crates/runtime/src/component/dataset/acceleration.rs: the names of the engines.
use spiceai.Prelude.{◌≡◌, refl}
use spiceai.Prelude.Text.{Text, ◌==◌}
use spiceai.Prelude.Result.{ok}
use spiceai.Acceleration.{Engine, engine_name, engine_try_from}

-- Where the names of the engines are lower case already, each engine is read back from its name.
pub engine_try_from-engine_name :
    (to_lowercase : Text → Text) (e : Engine)
    → to_lowercase (engine_name e) ≡ engine_name e
    → engine_try_from to_lowercase (engine_name e) ≡ ok e
unfolding engine_try_from engine_name ◌==◌
engine_try_from-engine_name to_lowercase Engine.arrow h = rw (h, engine_try_from) refl
engine_try_from-engine_name to_lowercase Engine.duckdb h = rw (h, engine_try_from) refl
engine_try_from-engine_name to_lowercase Engine.sqlite h = rw (h, engine_try_from) refl
engine_try_from-engine_name to_lowercase Engine.postgres h = rw (h, engine_try_from) refl
