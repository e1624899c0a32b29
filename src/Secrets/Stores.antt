-- ===== src/Secrets/Stores.antt =====
-- crates/runtime/src/secrets.rs: `Secrets`, the connected stores in their order of precedence.
--
-- A store answers a key with a secret, with nothing, or with an error (trait `SecretStore`). The
-- `IndexMap` of stores is a list of entries in its order.
pub mod Precedence
use spiceai.Prelude.{ℕ, Bool, true, false, Option, none, some, List, [], ◌∷◌, ◌++◌, reverse, String}
use spiceai.Prelude.Tests.{if◌then◌else◌}
use spiceai.Prelude.Text.{Text, codes, ◌==◌}
use spiceai.Prelude.Result.{Result, ok, err, to_option}
use spiceai.Secrets.Provider.{
  Error, Features, SpicepodSecret, SecretStoreType, spicepod_secret_store_type,
}

abbrev pub secrets_name : Text
secrets_name = codes "secrets"

-- The text of an error that a store gives.
abbrev pub SecretStore : Type 0
SecretStore = Text → Result Text (Option Text)

abbrev pub Entries : Type 0
Entries = List (Text × SecretStore)

pub record Secrets : Type 0 where
  pub stores : Entries

pub new : Secrets
new = record { stores = [] }

-- `IndexMap::insert`: a key that is there keeps its place.
unfoldable pub insert : Text → SecretStore → Entries → Entries
insert k v [] = (k, v) ∷ []
insert k v ((j, w) ∷ m) = if j == k then (j, v) ∷ m else (j, w) ∷ insert k v m

-- `IndexMap::get`
unfoldable pub get : Text → Entries → Option SecretStore
get k [] = none
get k ((j, w) ∷ m) = if j == k then some w else get k m

-- The stores of the other crates and of the environment, by the type that asks for one:
-- `load_secret_store` calls them, and `load_default_store` is the environment's.
pub record Loaders : Type 0 where
  pub env : SecretStore
  pub env_custom_path : Text → SecretStore
  pub keyring : SecretStore
  pub kubernetes : Text → Result Error SecretStore
  pub aws_secrets_manager : Text → Result Error SecretStore

-- A store that cannot be loaded is left out.
unfoldable pub insert_loaded : Text → Result Error SecretStore → Entries → Entries
insert_loaded name (ok store) stores = insert name store stores
insert_loaded name (err e) stores = stores

module _ (features : Features) (loaders : Loaders) where
  unfoldable pub load_secret_store : SecretStoreType → Result Error SecretStore
  load_secret_store SecretStoreType.env = ok loaders.env
  load_secret_store (SecretStoreType.env_custom_path path) = ok (loaders.env_custom_path path)
  load_secret_store SecretStoreType.keyring = ok loaders.keyring
  load_secret_store (SecretStoreType.kubernetes name) = loaders.kubernetes name
  load_secret_store (SecretStoreType.aws_secrets_manager name) = loaders.aws_secrets_manager name

  pub load_default_store : SecretStore
  load_default_store = loaders.env

  -- The `for` loop of `load_from`. What was inserted before an error stays inserted.
  unfoldable pub load_loop : List SpicepodSecret → Entries → Result Error (Unit {0}) × Entries
  unfolding insert_loaded
  load_loop [] stores = (ok tt, stores)
  load_loop (secret ∷ secrets) stores = elim (spicepod_secret_store_type features secret) [
    | err e ↦ (err e, stores)
    | ok store_type ↦
        load_loop secrets (insert_loaded secret.name (load_secret_store store_type) stores)
  ]

  unfoldable pub with_default : Entries → Entries
  unfolding load_default_store
  with_default [] = insert (codes "env") load_default_store []
  with_default (x ∷ stores) = x ∷ stores

  -- Behind the loop: `?` gives the error back; without one, the default and the reversal.
  unfoldable pub finish_load : Result Error (Unit {0}) × Entries → Result Error (Unit {0}) × Secrets
  finish_load (err e, stores) = (err e, record { stores = stores })
  finish_load (ok _, stores) = (ok tt, record { stores = reverse (with_default stores) })

  unfoldable pub load_from : Secrets → List SpicepodSecret → Result Error (Unit {0}) × Secrets
  unfolding finish_load
  load_from self secrets = finish_load (load_loop secrets [])

-- The `for` loop of `get_secret`.
unfoldable pub first_secret : Entries → Text → Result Text (Option Text)
first_secret [] key = ok none
first_secret ((_, store) ∷ stores) key = elim (store key) [
  | ok (some secret) ↦ ok (some secret)
  | ok none ↦ first_secret stores key
  | err e ↦ err e
]

unfoldable pub get_secret : Secrets → Text → Result Text (Option Text)
unfolding first_secret
get_secret self = first_secret self.stores

-- An error and a missing key are both logged, and give no secret.
answer : Result Text (Option Text) → Option Text
answer (ok found) = found
answer (err e) = none

unfoldable pub get_store_secret : Secrets → Text → Text → Option Text
unfolding answer
get_store_secret self store_name key =
    if store_name == secrets_name
    then answer (get_secret self key)
    else elim (get store_name self.stores) [ none ↦ none | some store ↦ answer (store key) ]
