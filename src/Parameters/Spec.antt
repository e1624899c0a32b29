-- ===== src/Parameters/Spec.antt =====
-- crates/runtime/src/parameters.rs: `ParameterSpec` and the builders.
use spiceai.Prelude.{Bool, true, false, Option, none, some, List, []}
use spiceai.Prelude.Text.{Text}
use spiceai.Parameters.Kind.{ParameterType}

pub record ParameterSpec : Type 0 where
  pub name : Text
  pub required : Bool
  pub default : Option Text
  pub secret : Bool
  pub description : Text
  pub help_link : Text
  pub examples : List Text
  pub type : ParameterType

-- The `const fn` builders.
spec : ParameterType → Text → ParameterSpec
spec t name = record {
  name = name;
  required = false;
  default = none;
  secret = false;
  description = [];
  help_link = [];
  examples = [];
  type = t;
}

unfoldable pub connector : Text → ParameterSpec
unfolding spec
connector = spec ParameterType.connector

unfoldable pub runtime : Text → ParameterSpec
unfolding spec
runtime = spec ParameterType.runtime

unfoldable pub accelerator : Text → ParameterSpec
unfolding spec
accelerator = spec ParameterType.accelerator

unfoldable pub required : ParameterSpec → ParameterSpec
required s = record s { required = true }

unfoldable pub default : Text → ParameterSpec → ParameterSpec
default d s = record s { default = some d }

unfoldable pub secret : ParameterSpec → ParameterSpec
secret s = record s { secret = true }

unfoldable pub description : Text → ParameterSpec → ParameterSpec
description d s = record s { description = d }

unfoldable pub help_link : Text → ParameterSpec → ParameterSpec
help_link l s = record s { help_link = l }

unfoldable pub examples : List Text → ParameterSpec → ParameterSpec
examples es s = record s { examples = es }
