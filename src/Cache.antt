-- ===== src/Cache.antt =====
-- crates/cache: the results cache, and crates/runtime/src/datafusion/query.rs that uses it.
--
-- `moka::future::Cache` is a parameter (`Moka`), with what its documentation says of it
-- (`IsSound`); so are the hash of a plan, the size of a record batch and the parsers of the two
-- settings. The metrics are left out.
pub mod Plan
pub mod Walks
pub mod Stream
pub mod Query
pub mod Fresh
pub mod Steps
pub mod Current
use spiceai.Prelude.{
  ℕ, ◌+◌, ◌*◌, ◌^◌, Bool, true, false, Option, none, some, List, [], ◌∷◌, ◌≡◌, ◌≢◌,
}
use spiceai.Prelude.Result.{Result, ok, err, ◌>>=◌, map_err}
use spiceai.Prelude.Text.{Text}
use spiceai.Dataset.{TableReference}
use spiceai.Cache.Plan.{contains}

pub record CachedQueryResult (Batch Schema : Type 0) : Type 0 where
  pub records : List Batch
  pub schema : Schema
  pub input_tables : List TableReference

-- The operations of the cache library that the program uses, on the cache's state.
pub record Moka (Value State PredicateError : Type 0) : Type 0 where
  pub get : State → ℕ → Option Value
  pub insert : State → ℕ → Value → State
  pub invalidate_entries_if : State → (ℕ → Value → Bool) → Result PredicateError State
  -- What the library does by itself as time passes: it drops what is too old or too much.
  pub evict : State → ℕ → State

-- The library gives for a key only a value that was inserted for it and not replaced, nor chosen
-- by an invalidation since. It may have dropped any value.
pub record IsSound {V S P : Type 0} (moka : Moka V S P) : Type 0 where
  pub insert_same : (s : S) (k : ℕ) (v w : V) → moka.get (moka.insert s k v) k ≡ some w → v ≡ w
  pub insert_other :
      (s : S) (k l : ℕ) (v w : V)
      → k ≢ l
      → moka.get (moka.insert s k v) l ≡ some w
      → moka.get s l ≡ some w
  pub invalidated :
      (s s' : S) (p : ℕ → V → Bool) (k : ℕ) (w : V)
      → moka.invalidate_entries_if s p ≡ ok s'
      → moka.get s' k ≡ some w
      → (moka.get s k ≡ some w) × (p k w ≡ false)
  pub evicted :
      (s : S) (n k : ℕ) (w : V) → moka.get (moka.evict s n) k ≡ some w → moka.get s k ≡ some w

pub data Error (ByteError DurationError PredicateError : Type 0) : Type 0 where
  failed_to_parse_cache_max_size : ByteError → Error ByteError DurationError PredicateError
  failed_to_parse_item_ttl : DurationError → Error ByteError DurationError PredicateError
  failed_to_invalidate_cache : PredicateError → Text → Error ByteError DurationError PredicateError

-- `spicepod::component::runtime::ResultsCache`, less what `try_new` does not read.
pub record ResultsCache : Type 0 where
  pub cache_max_size : Option Text
  pub item_ttl : Option Text

-- The name in a reference, without its catalog and schema.
unfoldable pub table : TableReference → Text
table (TableReference.bare t) = t
table (TableReference.partial s t) = t
table (TableReference.full c s t) = t

-- `QueryResultsCacheProvider`: its settings, and the state of its cache.
pub record QueryResultsCacheProvider (State Duration : Type 0) : Type 0 where
  pub cache : State
  pub cache_max_size : ℕ
  pub ttl : Duration
  pub ignore_schemas : List Text

-- 128 MiB
abbrev pub default_max_size : ℕ
default_max_size = 128 * 1024 * 1024

module _ {B D P : Type 0} where
  unfoldable pub max_size : (Text → Result B ℕ) → Option Text → Result (Error B D P) ℕ
  max_size parse_bytes none = ok default_max_size
  max_size parse_bytes (some t) = map_err failed_to_parse_cache_max_size (parse_bytes t)

  unfoldable pub item_ttl :
      {Duration : Type 0}
      → (Text → Result D Duration)
      → (ℕ → Duration)
      → Option Text
      → Result (Error B D P) Duration
  item_ttl parse_duration from_secs none = ok (from_secs 1)
  item_ttl parse_duration from_secs (some t) = map_err failed_to_parse_item_ttl (parse_duration t)

  -- `new_cache` is `LruCache::new`.
  unfoldable pub try_new :
      {State Duration : Type 0}
      → (Text → Result B ℕ)
      → (Text → Result D Duration)
      → (ℕ → Duration)
      → (ℕ → Duration → State)
      → ResultsCache
      → List Text
      → Result (Error B D P) (QueryResultsCacheProvider State Duration)
  try_new parse_bytes parse_duration from_secs new_cache config ignore_schemas =
      max_size parse_bytes config.cache_max_size >>= λ size.
      item_ttl parse_duration from_secs config.item_ttl >>= λ ttl. ok (record {
        cache = new_cache size ttl;
        cache_max_size = size;
        ttl = ttl;
        ignore_schemas = ignore_schemas;
      })

module _ {Batch Schema S P : Type 0} (moka : Moka (CachedQueryResult Batch Schema) S P) where
  -- `LruCache::put_key`
  unfoldable pub put_key : S → ℕ → CachedQueryResult Batch Schema → S
  put_key s key result = moka.insert s key result

  -- `LruCache::invalidate_for_table`
  unfoldable pub invalidate_for_table : {B D : Type 0} → S → TableReference → Result (Error B D P) S
  invalidate_for_table s table_ref =
      map_err (λ e. failed_to_invalidate_cache e (table table_ref))
        (moka.invalidate_entries_if s (λ _ value. contains value.input_tables table_ref))

module _ {Plan Batch Schema S P : Type 0} (moka : Moka (CachedQueryResult Batch Schema) S P)
    (key_for_logical_plan : Plan → ℕ) where
  -- `LruCache::get`, which does not fail
  unfoldable pub get : S → Plan → Option (CachedQueryResult Batch Schema)
  get s plan = moka.get s (key_for_logical_plan plan)

  -- `LruCache::put`
  unfoldable pub put : S → Plan → CachedQueryResult Batch Schema → S
  put s plan result = moka.insert s (key_for_logical_plan plan) result
