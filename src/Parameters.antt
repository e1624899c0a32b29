-- ===== src/Parameters.antt =====
-- crates/runtime/src/parameters.rs: the parameters of data connectors and accelerators.
--
-- A secret string is its text. The connected secrets are the function `secrets` from a key to what
-- `Secrets::get_secret` answers. Warnings and other logging are left out.
pub mod Kind
pub mod Spec
pub mod Autoload
pub mod Required
pub mod Resolve
pub mod Keys
use spiceai.Prelude.{Bool, true, false, not, ◌&&◌, ◌||◌, Option, none, some, List, [], ◌∷◌, ◌++◌}
use spiceai.Prelude.Lists.{any, find}
use spiceai.Prelude.Tests.{if◌then◌else◌}
use spiceai.Prelude.Text.{Text, codes, ◌==◌, strip_prefix}
use spiceai.Prelude.Result.{Result, ok, err}
use spiceai.Parameters.Spec.{ParameterSpec}
use spiceai.Parameters.Kind.{is_prefixed}

abbrev pub Params : Type 0
Params = List (Text × Text)

pub record Parameters : Type 0 where
  pub params : Params
  pub prefix : Text
  pub all_params : List ParameterSpec

pub data Error : Type 0 where
  invalid_configuration_no_source : Text → Text → Error

-- `all_params.iter().find(|p| p.name == name)`
unfoldable pub spec_of : List ParameterSpec → Text → Option ParameterSpec
unfolding find
spec_of all_params name = find (λ p. p.name == name) all_params

-- `params.iter().any(|p| p.0 == name)`
unfoldable pub has : Text → Params → Bool
unfolding any
has name params = any (λ p. p.0 == name) params

-- `params.iter().find(|p| p.0 == name)`, with the value alone.
unfoldable pub value_of : Text → Params → Option Text
value_of name [] = none
value_of name ((k, v) ∷ params) = if k == name then some v else value_of name params

abbrev pub full_prefix : Text → Text
full_prefix prefix = prefix ++ codes "_"

-- The key without the prefix, and whether the prefix was there.
unfoldable pub split_prefix : Text → Text → Text × Bool
split_prefix prefix key = elim (strip_prefix (full_prefix prefix) key) [
  | some unprefixed_key ↦ (unprefixed_key, true)
  | none ↦ (key, false)
]

-- The `filter_map` closure on the key of a parameter: its name, or `none` with a warning.
pub accept : Text × Bool → Option ParameterSpec → Option Text
accept (unprefixed_key, has_prefix) none = none
accept (unprefixed_key, has_prefix) (some spec) =
    if not has_prefix && is_prefixed spec.type
    then none
    else if has_prefix && not (is_prefixed spec.type)
    then none
    else some unprefixed_key

unfoldable pub convert_key : Text → List ParameterSpec → Text → Option Text
unfolding accept split_prefix
convert_key prefix all_params key =
    let split = split_prefix prefix key in accept split (spec_of all_params split.0)

unfoldable pub convert : Text → List ParameterSpec → Params → Params
convert prefix all_params [] = []
convert prefix all_params ((key, value) ∷ params) =
    let rest = convert prefix all_params params in
    elim (convert_key prefix all_params key) [ none ↦ rest | some name ↦ (name, value) ∷ rest ]

pub push_found : Text → Result Text (Option Text) → Params → Params
push_found name (ok (some secret)) params = params ++ (name, secret) ∷ []
push_found name (ok none) params = params
push_found name (err e) params = params

-- The body of the loop that loads secrets which are missing from the parameters.
unfoldable pub autoload_one :
    (Text → Result Text (Option Text)) → Text → ParameterSpec → Params → Params
unfolding push_found
autoload_one secrets prefix spec params =
    if not spec.secret || has spec.name params
    then params
    else push_found spec.name (secrets (full_prefix prefix ++ spec.name)) params

unfoldable pub autoload :
    (Text → Result Text (Option Text)) → Text → List ParameterSpec → Params → Params
autoload secrets prefix [] params = params
autoload secrets prefix (spec ∷ specs) params =
    autoload secrets prefix specs (autoload_one secrets prefix spec params)

pub missing_param : Text → ParameterSpec → Text
missing_param prefix spec =
    if is_prefixed spec.type then full_prefix prefix ++ spec.name else spec.name

-- What the loop over the required parameters does with one: `none` goes on unchanged.
pub data Check : Type 0 where
  keep : Check
  push : Text → Check
  fail : Check

pub check : Bool → Option Text → Bool → Check
check false default required = keep
check true (some default_value) required = push default_value
check true none required = if required then fail else keep

unfoldable pub require : Text → Text → List ParameterSpec → Params → Result Error Params
unfolding check missing_param
require component_name prefix [] params = ok params
require component_name prefix (spec ∷ specs) params =
    elim (check (not (has spec.name params)) spec.default spec.required) [
      | keep ↦ require component_name prefix specs params
      | push default_value ↦
          require component_name prefix specs (params ++ (spec.name, default_value) ∷ [])
      | fail ↦ err (
          invalid_configuration_no_source component_name
            (codes "Missing required parameter: " ++ missing_param prefix spec))
    ]

pub new : Params → Text → List ParameterSpec → Parameters
new params prefix all_params = record { params = params; prefix = prefix; all_params = all_params }

unfoldable pub try_new :
    Text
    → Params
    → Text
    → (Text → Result Text (Option Text))
    → List ParameterSpec
    → Result Error Parameters
unfolding new
try_new component_name params prefix secrets all_params =
    elim (require component_name prefix all_params
      (autoload secrets prefix all_params (convert prefix all_params params))) [
        | ok done ↦ ok (new done prefix all_params)
        | err e ↦ err e
      ]

pub data ParamLookup : Type 0 where
  present : Text → ParamLookup
  absent : Text → ParamLookup

-- `none` is the panic on a name that is not among the specs.
unfoldable pub describe : Parameters → Text → Option ParameterSpec
unfolding spec_of
describe self name = spec_of self.all_params name

pub user_name : Text → ParameterSpec → Text
user_name [] spec = spec.name
user_name (c ∷ prefix) spec =
    if not (is_prefixed spec.type) then spec.name else (c ∷ prefix) ++ (codes "_" ++ spec.name)

unfoldable pub user_param : Parameters → Text → Option Text
unfolding describe user_name
user_param self name = elim (describe self name) [
  | none ↦ none
  | some spec ↦ some (user_name self.prefix spec)
]

unfoldable pub get : Parameters → Text → Option ParamLookup
unfolding value_of
get self name = elim (value_of name self.params) [
  | some value ↦ some (present value)
  | none ↦ elim (user_param self name) [ none ↦ none | some user ↦ some (absent user) ]
]

unfoldable pub insert_param : Text → Text → Params → Params
insert_param key value [] = (key, value) ∷ []
insert_param key value ((k, v) ∷ params) =
    if k == key then (k, value) ∷ params else (k, v) ∷ insert_param key value params

unfoldable pub insert : Parameters → Text → Text → Parameters
unfolding insert_param
insert self key value = record self { params = insert_param key value self.params }

-- `ParamLookup::ok`
unfoldable pub lookup_ok : ParamLookup → Option Text
lookup_ok (present s) = some s
lookup_ok (absent _) = none

-- `ParamLookup::ok_or_else`
unfoldable pub ok_or_else : {E : Type 0} → (Text → E) → ParamLookup → Result E Text
ok_or_else f (present s) = ok s
ok_or_else f (absent s) = err (f s)

last_value : Text → Option Text → Params → Option Text
last_value name found [] = found
last_value name found ((k, v) ∷ params) =
    last_value name (if k == name then some v else found) params

-- `to_secret_map`: of the values under one name the last one stays in the map.
unfoldable pub to_secret_map : Parameters → Text → Option Text
unfolding last_value
to_secret_map self name = last_value name none self.params
