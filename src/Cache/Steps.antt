-- ===== src/Cache/Steps.antt =====
-- Queries, refreshes and evictions as steps on the tables and the results cache.
--
-- A query with the reading of its answer is one step here, and so is a change of a table with the
-- invalidation behind it (`invalidate_for_table` at the end of a refresh).
use spiceai.Prelude.{ℕ, ◌<◌, true, none, some, List, map, ◌≡◌, ◌≢◌}
use spiceai.Prelude.Result.{Result, ok}
use spiceai.Arrow.{Schema}
use spiceai.Dataset.{TableReference}
use spiceai.Cache.Plan.{LogicalPlan, contains}
use spiceai.Cache.Walks.{some_node, scans}
use spiceai.Cache.{CachedQueryResult, IsSound, QueryResultsCacheProvider, invalidate_for_table}
use spiceai.Cache.Stream.{memory, usize_bound}
use spiceai.Cache.Query.{Query, QueryResult, Engine, Setting, Error, run}

-- What the program relies on: the cache library is sound, the batches of a stream take less than
-- 2^64 bytes, and a stream from memory yields its batches.
pub record IsReliable {Name Data Batch E State P : Type 0} (setting : Setting Batch State P)
    (engine : (Name → Data) → Engine Batch E) : Type 0 where
  pub sound : IsSound setting.moka
  pub bounded :
      (d : Name → Data) (plan : LogicalPlan) (schema : Schema) (items : List (Result E Batch))
      → (engine d).execute_stream plan ≡ ok (schema, items)
      → memory setting.get_array_memory_size items < usize_bound
  pub memory_stream :
      (d : Name → Data) (records : List Batch) (schema : Schema)
      → (engine d).memory_stream records schema ≡ ok (map ok records)

-- The tables and how queries name them: a reference resolves to the name of a table, and several
-- spellings to the same. Under one of them the table is registered as a dataset, and this is what
-- its refresh invalidates.
pub record Naming (Name : Type 0) : Type 0 where
  pub resolve : TableReference → Name
  pub dataset_of : Name → TableReference

-- The data of the tables, and the provider.
abbrev pub World : Type 0 → Type 0 → Type 0 → Type 0 → Type 0
World Name Data State Duration = (Name → Data) × QueryResultsCacheProvider State Duration

module _ {Name Data Batch E State Duration P : Type 0} (setting : Setting Batch State P)
    (engine : (Name → Data) → Engine Batch E) (naming : Naming Name) where
  pub data Step : World Name Data State Duration → World Name Data State Duration → Type 0 where
    query :
        (d : Name → Data) (p p' : QueryResultsCacheProvider State Duration) (self : Query)
        (polls : ℕ) (r : Result (Error E) (QueryResult Batch E))
        → run setting (engine d) self (some p) polls ≡ some (r, some p')
        → Step (d, p) (d, p')
    refresh :
        (d d' : Name → Data) (p : QueryResultsCacheProvider State Duration) (n : Name)
        (cache : State)
        → ((u : Name) → u ≢ n → d u ≡ d' u)
        → invalidate_for_table setting.moka {B = Unit {0}} {D = Unit {0}} p.cache
            (naming.dataset_of n)
          ≡ ok cache
        → Step (d, p) (d', record p { cache = cache })
    evict :
        (d : Name → Data) (p : QueryResultsCacheProvider State Duration) (n : ℕ)
        → Step (d, p) (d, record p { cache = setting.moka.evict p.cache n })

  -- From an empty cache.
  pub data Reachable : World Name Data State Duration → Type 0 where
    start :
        (d : Name → Data) (p : QueryResultsCacheProvider State Duration)
        → ((k : ℕ) → setting.moka.get p.cache k ≡ none)
        → Reachable (d, p)
    next : {w w' : World Name Data State Duration} → Reachable w → Step w w' → Reachable w'

module _ {Name Data Batch E State P : Type 0} (setting : Setting Batch State P)
    (engine : (Name → Data) → Engine Batch E) (naming : Naming Name) where
  -- No table that the plan scans, spelled as it is registered, has changed from the one data to the
  -- other.
  abbrev pub Unchanged : LogicalPlan → (Name → Data) → (Name → Data) → Type 0
  Unchanged plan d d' =
      (t : TableReference)
      → some_node (scans t) plan ≡ true
      → naming.dataset_of (naming.resolve t) ≡ t
      → d (naming.resolve t) ≡ d' (naming.resolve t)

  -- A cached value is the complete answer of a plan of that key on data on which, as far as the plan
  -- spells the tables as they are registered, the tables were as they are now.
  abbrev pub IsCurrent : (Name → Data) → ℕ → CachedQueryResult Batch Schema → Type 0
  IsCurrent d k v =
      (plan : LogicalPlan) × (d' : Name → Data) × (setting.key_for_logical_plan plan ≡ k)
      × ((t : TableReference) → contains v.input_tables t ≡ some_node (scans t) plan)
      × ((engine d').execute_stream plan ≡ ok (v.schema, map ok v.records))
      × Unchanged plan d' d

  abbrev pub AllCurrent : (Name → Data) → State → Type 0
  AllCurrent d cache =
      (k : ℕ) (v : CachedQueryResult Batch Schema)
      → setting.moka.get cache k ≡ some v
      → IsCurrent d k v
