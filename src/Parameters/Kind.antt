-- ===== src/Parameters/Kind.antt =====
-- crates/runtime/src/parameters.rs: `ParameterType`.
use spiceai.Prelude.{Bool, true, false}

pub data ParameterType : Type 0 where
  connector accelerator runtime : ParameterType

unfoldable pub is_prefixed : ParameterType → Bool
is_prefixed ParameterType.connector = true
is_prefixed ParameterType.accelerator = true
is_prefixed ParameterType.runtime = false
