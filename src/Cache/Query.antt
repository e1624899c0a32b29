-- ===== src/Cache/Query.antt =====
-- crates/runtime/src/datafusion/query.rs: `Query::run`.
--
-- The query engine is a parameter: planning, the check of a plan against the restricted options and
-- the execution, on the data at hand. The stream of the answer is the list of what it yields, read
-- by a client that asks `polls` times. The tracker and the tracing spans are left out.
use spiceai.Prelude.{ℕ, zero, suc, Bool, true, false, Option, none, some, List, [], ◌∷◌}
use spiceai.Prelude.Lists.{take}
use spiceai.Prelude.Tests.{if◌then◌else◌}
use spiceai.Prelude.Result.{Result, ok, err, ◌>>=◌, ◌>>◌, map_err}
use spiceai.Prelude.Text.{Text}
use spiceai.Arrow.{DataType, Schema}
use spiceai.ArrowTools.{verify_schema, Error as SchemaError}
use spiceai.Dataset.{TableReference}
use spiceai.Cache.Plan.{LogicalPlan, get_logical_plan_input_tables, cache_is_enabled_for_plan}
use spiceai.Cache.{CachedQueryResult, Moka, QueryResultsCacheProvider, get}
use spiceai.Cache.Stream.{to_cached_record_batch_stream}

pub data Error (E : Type 0) : Type 0 where
  unable_to_execute_query : E → Error E
  unable_to_create_memory_stream : E → Error E
  schema_mismatch : SchemaError → Error E

-- What `run` asks of the query engine.
pub record Engine (Batch E : Type 0) : Type 0 where
  pub create_logical_plan : Text → Result E LogicalPlan
  pub verify_plan : LogicalPlan → Result E (Unit {0})
  pub df_schema : LogicalPlan → Schema
  pub execute_stream : LogicalPlan → Result E (Schema × List (Result E Batch))
  pub memory_stream : List Batch → Schema → Result E (List (Result E Batch))

-- What does not change between queries.
pub record Setting (Batch State PredicateError : Type 0) : Type 0 where
  pub moka : Moka (CachedQueryResult Batch Schema) State PredicateError
  pub key_for_logical_plan : LogicalPlan → ℕ
  pub get_array_memory_size : Batch → ℕ
  pub same_type : DataType → DataType → Bool

-- `Query`
pub record Query : Type 0 where
  pub sql : Text
  pub restricted_sql_options : Bool

-- `QueryResult`, its stream as far as it is read.
pub record QueryResult (Batch E : Type 0) : Type 0 where
  pub data_ : List (Result E Batch)
  pub from_cache : Option Bool

-- How often `attach_query_tracker_to_stream` asks the stream inside for an item, when it is asked
-- `polls` times itself: it ends behind the first error.
unfoldable pub inner_polls : {Batch E : Type 0} → List (Result E Batch) → ℕ → ℕ
inner_polls stream zero = 0
inner_polls [] (suc polls) = 1
inner_polls (err e ∷ stream) (suc polls) = 1
inner_polls (ok batch ∷ stream) (suc polls) = suc (inner_polls stream polls)

module _ {Batch State Duration P : Type 0} (setting : Setting Batch State P) where
  unfoldable pub cached_result :
      Option (QueryResultsCacheProvider State Duration)
      → LogicalPlan
      → Option (CachedQueryResult Batch Schema)
  cached_result none plan = none
  cached_result (some cache) plan = get setting.moka setting.key_for_logical_plan cache.cache plan

module _ {State Duration : Type 0} where
  -- `plan_is_cache_enabled` when the cache had no result.
  unfoldable pub plan_is_cache_enabled :
      Option (QueryResultsCacheProvider State Duration) → LogicalPlan → Option Bool
  plan_is_cache_enabled none plan = some false
  plan_is_cache_enabled (some cache) plan = cache_is_enabled_for_plan cache.ignore_schemas plan

module _ {Batch E State Duration P : Type 0} (setting : Setting Batch State P) where
  -- The stream of the answer, in the caching stream if there is to be one.
  unfoldable pub answer :
      Option (QueryResultsCacheProvider State Duration)
      → Bool
      → LogicalPlan
      → List TableReference
      → ℕ
      → Schema × List (Result E Batch)
      → QueryResult Batch E × Option (QueryResultsCacheProvider State Duration)
  answer (some cache) true plan input_tables polls (res_schema, res_stream) =
      let (data_, state) =
        to_cached_record_batch_stream setting.moka setting.get_array_memory_size cache.cache
          cache.cache_max_size res_schema res_stream (setting.key_for_logical_plan plan)
          input_tables (inner_polls res_stream polls) in
      (record { data_ = data_; from_cache = some false }, some (record cache { cache = state }))
  answer cache_provider _ plan input_tables polls (res_schema, res_stream) = (
    record { data_ = take (inner_polls res_stream polls) res_stream; from_cache = none },
    cache_provider,
  )

module _ {Batch E : Type 0} (engine : Engine Batch E) where
  -- A hit.
  unfoldable pub from_memory :
      CachedQueryResult Batch Schema → ℕ → Result (Error E) (QueryResult Batch E)
  from_memory cached polls =
      map_err unable_to_create_memory_stream (engine.memory_stream cached.records cached.schema)
      >>= λ stream.
          ok (record { data_ = take (inner_polls stream polls) stream; from_cache = some true })

  unfoldable pub verify_restricted : Query → LogicalPlan → Result (Error E) (Unit {0})
  verify_restricted self plan =
      if self.restricted_sql_options
      then map_err unable_to_execute_query (engine.verify_plan plan)
      else ok tt

module _ {Batch E State P : Type 0} (setting : Setting Batch State P)
    (engine : Engine Batch E) where
  -- `execute_stream` and the check of the schema of what it gives.
  unfoldable pub execute : LogicalPlan → Result (Error E) (Schema × List (Result E Batch))
  execute plan = map_err unable_to_execute_query (engine.execute_stream plan) >>= λ res.
      (map_err schema_mismatch (verify_schema setting.same_type (engine.df_schema plan) res.0)
        >> ok res)

module _ {Batch E State Duration P : Type 0} (setting : Setting Batch State P)
    (engine : Engine Batch E) where
  -- A miss. `none` is a walk over the plan that does not end.
  unfoldable pub run_uncached :
      Query
      → Option (QueryResultsCacheProvider State Duration)
      → LogicalPlan
      → ℕ
      → Option (
          Result (Error E) (QueryResult Batch E)
          × Option (QueryResultsCacheProvider State Duration))
  run_uncached self cache_provider plan polls = elim (plan_is_cache_enabled cache_provider plan) [
    | none ↦ none
    | some enabled ↦ elim (verify_restricted engine self plan) [
      | err e ↦ some (err e, cache_provider)
      | ok _ ↦ elim (get_logical_plan_input_tables plan) [
        | none ↦ none
        | some input_tables ↦ elim (execute setting engine plan) [
          | err e ↦ some (err e, cache_provider)
          | ok res ↦
              let (result, cache_provider') =
                answer setting cache_provider enabled plan input_tables polls res in
              some (ok result, cache_provider')
        ]
      ]
    ]
  ]

  -- The result, and the cache behind the reading of the answer.
  unfoldable pub run :
      Query
      → Option (QueryResultsCacheProvider State Duration)
      → ℕ
      → Option (
          Result (Error E) (QueryResult Batch E)
          × Option (QueryResultsCacheProvider State Duration))
  run self cache_provider polls = elim (engine.create_logical_plan self.sql) [
    | err e ↦ some (err (unable_to_execute_query e), cache_provider)
    | ok plan ↦ elim (cached_result setting cache_provider plan) [
      | some cached ↦ some (from_memory engine cached polls, cache_provider)
      | none ↦ run_uncached self cache_provider plan polls
    ]
  ]
