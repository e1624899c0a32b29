-- ===== src/Tests/Parameters.antt =====
-- The theorems on parameters at concrete inputs: a connector `pg` with a secret that is required,
-- a default, and a runtime parameter.
use spiceai.Prelude.{Bool, true, false, Option, none, some, List, [], ◌∷◌, ◌≡◌, refl, String}
use spiceai.Prelude.Lists.{Any, here}
use spiceai.Prelude.Text.{Text, codes, ◌==◌, strip_prefix}
use spiceai.Prelude.Result.{Result, ok, err}
use spiceai.Parameters.Kind.{ParameterType, is_prefixed}
use spiceai.Parameters.Spec.{ParameterSpec}
use spiceai.Parameters.{
  Params, Parameters, Error, invalid_configuration_no_source, present, spec_of, has, value_of,
  convert_key, convert, autoload_one, autoload, require, try_new, user_name, get,
}
use spiceai.Parameters.Autoload.{or_else, Distinct, autoloaded}
use spiceai.Parameters.Required.{IsMissing}
use spiceai.Parameters.Resolve.{before_required, try_new-value_of, try_new-required, try_new-err}
use spiceai.Parameters.Keys.{convert_key-user_name}

abbrev parameter : String → Bool → Option Text → Bool → ParameterType → ParameterSpec
parameter name required default secret type = record {
  name = codes name;
  required = required;
  default = default;
  secret = secret;
  description = [];
  help_link = [];
  examples = [];
  type = type;
}

abbrev pass : ParameterSpec
pass = parameter "pass" true none true ParameterType.connector

abbrev port : ParameterSpec
port = parameter "port" false (some (codes "5432")) false ParameterType.connector

abbrev file : ParameterSpec
file = parameter "file" false none false ParameterType.runtime

abbrev specs : List ParameterSpec
specs = pass ∷ port ∷ file ∷ []

abbrev given : Params
given = (codes "file", codes "f") ∷ (codes "other", codes "o") ∷ []

abbrev secrets : Text → Result Text (Option Text)
secrets key = ok (some (codes "s3"))

abbrev no_secrets : Text → Result Text (Option Text)
no_secrets key = err (codes "locked")

abbrev resolved : Parameters
resolved = record {
  params =
      (codes "file", codes "f") ∷ (codes "pass", codes "s3") ∷ (codes "port", codes "5432") ∷ [];
  prefix = codes "pg";
  all_params = specs;
}

try_new-given : try_new (codes "postgres") given (codes "pg") secrets specs ≡ ok resolved
unfolding try_new require has autoload autoload_one convert convert_key spec_of ◌==◌ strip_prefix
    is_prefixed
try_new-given = refl

specs-Distinct : Distinct specs
unfolding ◌==◌
specs-Distinct = ((refl, (refl, tt)), ((refl, tt), (tt, tt)))

try_new-value_of_example :
    value_of (codes "pass") resolved.params
    ≡ or_else
        (value_of (codes "pass") (convert (codes "pg") specs given))
        (or_else (autoloaded secrets (codes "pg") pass) none)
try_new-value_of_example =
    try_new-value_of (codes "postgres") given (codes "pg") secrets specs pass resolved
      specs-Distinct (here refl) try_new-given

try_new-required_example : (v : Text) × (get resolved (codes "pass") ≡ some (present v))
try_new-required_example =
    try_new-required (codes "postgres") given (codes "pg") secrets specs pass resolved (here refl)
      refl try_new-given

abbrev missing : Error
missing =
    invalid_configuration_no_source (codes "postgres") (codes "Missing required parameter: pg_pass")

try_new-missing : try_new (codes "postgres") given (codes "pg") no_secrets specs ≡ err missing
unfolding try_new require has autoload autoload_one convert convert_key spec_of ◌==◌ strip_prefix
    is_prefixed
try_new-missing = refl

try_new-err_example :
    Any
      (IsMissing
        (codes "postgres")
        (codes "pg")
        (before_required (codes "postgres") given (codes "pg") no_secrets specs)
        missing)
      specs
try_new-err_example =
    try_new-err (codes "postgres") given (codes "pg") no_secrets specs missing try_new-missing

convert_key-user_name_example :
    convert_key (codes "pg") specs (user_name (codes "pg") file) ≡ some (codes "file")
unfolding spec_of strip_prefix ◌==◌
convert_key-user_name_example = convert_key-user_name b'p' (codes "g") specs file refl (λ e. refl)
