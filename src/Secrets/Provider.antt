-- ===== src/Secrets/Provider.antt =====
-- crates/runtime/src/secrets.rs: the type of store that the `from` field of a secret asks for.
use spiceai.Prelude.{◌+◌, Bool, Option, none, some, List, [], ◌∷◌, ◌≡◌, ◌&&◌}
use spiceai.Prelude.Lists.{drop}
use spiceai.Prelude.Tests.{if◌then◌else◌}
use spiceai.Prelude.Text.{
  Text, codes, ◌==◌, before, find_byte, joined, joined-before-after, before-joined, after-joined,
}
use spiceai.Prelude.Result.{Result, ok, err, ◌>>=◌, ◌>>◌}

-- `Error`; the messages of foreign errors are texts.
pub data Error : Type 0 where
  unable_to_load_secrets : Text → Error
  unable_to_initialize_aws_secrets_manager : Text → Error
  unable_to_parse_secret_value : Error
  unknown_secret_store : Text → Error
  secret_store_requires_secret_selector : Text → Error
  secret_store_invalid_secret_selector : Text → Error

-- The features that the crate is built with.
pub record Features : Type 0 where
  pub keyring_secret_store : Bool
  pub aws_secrets_manager : Bool

-- `spicepod::component::secret::Secret`; `params` is what `as_string_map` gives.
pub record SpicepodSecret : Type 0 where
  pub «from» : Text
  pub name : Text
  pub params : Option (List (Text × Text))

pub data SecretStoreType : Type 0 where
  env : SecretStoreType
  env_custom_path : Text → SecretStoreType
  keyring : SecretStoreType
  kubernetes : Text → SecretStoreType
  aws_secrets_manager : Text → SecretStoreType

unfoldable pub secret_store_provider : Text → Text
secret_store_provider = before b':'

unfoldable pub secret_selector : Text → Option Text
secret_selector source = elim (find_byte b':' source) [
  | some index ↦ some (drop (index + 1) source)
  | none ↦ none
]

unfoldable pub require_selector : Text → Option Text → Result Error Text
require_selector provider none = err (secret_store_requires_secret_selector provider)
require_selector provider (some selector) = ok selector

unfoldable pub require_no_selector : Text → Option Text → Result Error (Unit {0})
require_no_selector provider none = ok tt
require_no_selector provider (some _) = err (secret_store_invalid_secret_selector provider)

-- `HashMap::get`
get_param : Text → List (Text × Text) → Option Text
get_param k [] = none
get_param k ((j, v) ∷ m) = if j == k then some v else get_param k m

env_type : Option (List (Text × Text)) → SecretStoreType
env_type none = SecretStoreType.env
env_type (some params) = elim (get_param (codes "file_path") params) [
  | some path ↦ SecretStoreType.env_custom_path path
  | none ↦ SecretStoreType.env
]

unfoldable pub spicepod_secret_store_type : Features → SpicepodSecret → Result Error SecretStoreType
unfolding require_selector require_no_selector env_type get_param
spicepod_secret_store_type features store =
    let provider = secret_store_provider store.«from» in
    let selector = secret_selector store.«from» in
    if provider == codes "env"
    then (do require_no_selector provider selector; ok (env_type store.params))
    else if features.keyring_secret_store && provider == codes "keyring"
    then (do require_no_selector provider selector; ok SecretStoreType.keyring)
    else if provider == codes "kubernetes"
    then (do name ← require_selector provider selector; ok (SecretStoreType.kubernetes name))
    else if features.aws_secrets_manager && provider == codes "aws_secrets_manager"
    then (do
      name ← require_selector provider selector
      ok (SecretStoreType.aws_secrets_manager name))
    else err (unknown_secret_store provider)

-- The provider and the selector are the two sides of the first `:`, and nothing is lost.
pub joined-provider-selector :
    (source : Text) → joined b':' (secret_store_provider source) (secret_selector source) ≡ source
unfolding secret_selector secret_store_provider
joined-provider-selector source = joined-before-after b':' source

-- A provider with no `:` in it and any selector are read back from the source that they make.
pub provider-joined :
    (provider : Text) (selector : Option Text)
    → find_byte b':' provider ≡ none
    → (secret_store_provider (joined b':' provider selector) ≡ provider)
      × (secret_selector (joined b':' provider selector) ≡ selector)
unfolding secret_selector secret_store_provider
provider-joined p o h = (before-joined b':' p o h, after-joined b':' p o h)
