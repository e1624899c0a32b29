-- ===== src/Lib.antt =====
-- The runtime of Spice: secrets, parameters of components, refreshes of accelerated tables, and the
-- in-memory table that they write to. Paths are those of the repository.
--
-- Prelude: the names that are shared, numbers, lists, texts (a `&str` is the list of its bytes) and
-- results. A panic of the code is `none` of an Option around its result.
--
-- Secrets: crates/runtime/src/secrets/lexer.rs and secrets.rs. `Matcher` is the iterator over the
-- tokens of the lexer, which is generated and stands as a parameter: a token with its span, or a
-- refused stretch. `Matcher.collect` is the `for` loop over the iterator; its fuel is one more than
-- the number of tokens, and each round takes a token at least (`Matcher/Fused`). `Inject` is
-- `inject_secrets`, `Provider` the type of store that a secret asks for, and `Stores` the loading of
-- stores and the lookup in them. What a store answers is a parameter, as is the loading of those of
-- other crates. Logging is left out.
--
-- Parameters: crates/runtime/src/parameters.rs, `try_new` with its three loops, and the lookup. It
-- asks the secrets by a function from a key to what `Secrets::get_secret` answers.
--
-- Acceleration: the settings of an acceleration in a Spicepod
-- (crates/spicepod/src/component/dataset.rs and params.rs, `Acceleration/Spicepod`), those of the
-- runtime (crates/runtime/src/component/dataset/acceleration.rs), the conversion between the two
-- (`Acceleration/Convert`), what a conflict does (acceleration/on_conflict.rs), and the
-- constraints of the table (acceleration/constraints.rs). The parsers of
-- column references and of durations belong to other crates and are parameters, and so is the
-- lowering of the case of a text.
--
-- Dataset: crates/runtime/src/component/dataset.rs, the conversion of a dataset and what the other
-- parts read of it. The parser of table references is a parameter, and so is the product with 0.1.
--
-- Arrow and Refresh: the settings of a refresh with their builders and `validate_time_format`
-- (crates/runtime/src/accelerated_table/refresh.rs), the filter on the time column
-- (crates/runtime/src/datafusion/filter_converter.rs, `Refresh/Filter`), and the latest timestamp
-- with its overlap (refresh_task.rs, `Refresh/Append`). An `i64` is `pos` or `negsuc`, its cast to
-- `u128` and the products in `u128` wrap at 2 ^ 128, and the cast of a literal to `i64` at 2 ^ 64.
-- The answer of the query engine is a parameter.
--
-- Refresher: the two tasks of a scheduled refresh (`Refresher::start` in refresh.rs and
-- `RefreshTaskRunner::start` in refresh_task_runner.rs) and their three channels, each with room for
-- one message. `Step` has a constructor for each branch of the two `select!`, for each send that
-- goes through, and for a request from outside. The result of a refresh is any result, and the
-- jitter any number that may be drawn. `Refresher/Channels` is what a table is built with
-- (accelerated_table.rs).
--
-- Backoff: crates/util/src/fibonacci_backoff.rs, the delays between retries. The arithmetic on `f64`
-- is a parameter. `Backoff/Retries` asks for delays until there are none; its fuel is one more than
-- the maximum of retries, and each call but the last gives a delay.
--
-- MemTable: crates/data_components/src/arrow/write.rs, the construction, insertion, deletion and
-- scan of the table. A row is a value of any type, and a table is compared by how many of its rows
-- satisfy each predicate. The engine that plans and runs the queries of a deletion is a parameter,
-- with its documented behaviour as the hypothesis `IsSound`.
--
-- RefreshTask: the execution of a refresh (crates/runtime/src/accelerated_table/refresh_task.rs, with
-- dataupdate.rs, status.rs and `get_data` of dataconnector.rs). `Load` gets the data of a full or an
-- append refresh, `Records` takes out what the accelerator has, `Write` writes it and is `run_once`, and
-- `Run` are the attempts of `run`. What the query engine, the source and the accelerator answer is a
-- parameter on a state of the outside, which changes from call to call; the loop of the backoff crate
-- is the relation `Retried`. `Streaming` is a stream of appended data. `OnMemTable` puts a `MemTable`
-- in the place of the accelerator, and counts the panics of its writes.
--
-- Changes: change data capture (refresh_task/changes.rs and crates/data_components/src/cdc.rs), the
-- writing of a batch of changes and the loop over their stream (`Commits`). `Replay` is the abstract
-- table, a map from keys to rows.
--
-- Cache: the results cache (crates/cache/src/lib.rs, utils.rs and lru_cache.rs) and `Query::run`
-- (crates/runtime/src/datafusion/query.rs, `Cache/Query`). The walks over a plan have as fuel the number
-- of its nodes, and each round takes a node (`Cache/Walks`). The cache library is a parameter, with its
-- documented behaviour as the hypothesis `IsSound`. In `Cache/Steps` a query with the reading of its
-- answer is one step, and so is a change of a table with its invalidation; what happens when they
-- overlap is not covered. A reference resolves to a table there, and the invalidation is by the reference
-- under which the table is registered. ArrowTools: crates/arrow_tools/src/schema.rs.
--
-- Runtime: crates/runtime/src/lib.rs, the comparison of two versions of the Spicepods and the actions
-- that it gives. Datasets, catalogs and models are instances of the interface `Kind`; `Runtime/Datasets` is that of
-- datasets, with the comparison of crates/runtime/src/component/dataset.rs.
--
-- ExecutionPlan: crates/runtime/src/execution_plan (mod.rs, schema_cast.rs), `Fallback`
-- (fallback_on_zero_results.rs and `scan` of crates/runtime/src/accelerated_table.rs), and in
-- ArrowTools/Cast crates/arrow_tools/src/record_batch.rs. The query engine and the arrow crates are
-- parameters, the stream of a partition is the list of what it yields. `Answer` is about the plan that
-- falls back on the source.
--
-- HealthMonitor: crates/runtime/src/datasets_health_monitor.rs. `Reports` has the rounds of checks, the
-- tasks of a round and the registrations as steps. The test of a dataset and the report behind it are
-- one step.
--
-- Not modelled: the validation of the schema of a change batch, the loading of components, the servers,
-- the connectors and clients of other systems, and the command line.
pub mod Prelude
pub mod Secrets
pub mod Parameters
pub mod Arrow
pub mod ArrowTools
pub mod Refresh
pub mod MemTable
pub mod RefreshTask
pub mod Runtime
pub mod Refresher
pub mod Tests
pub mod Acceleration
pub mod Dataset
pub mod Backoff
pub mod Cache
pub mod Changes
pub mod ExecutionPlan
pub mod HealthMonitor
