-- ===== src/Tests/Cache.antt =====
-- The theorems on the results cache at concrete inputs. A batch is a number, which is its size too;
-- a table's data is a number, and a plan's answer one batch with the sum of what it scans.
use spiceai.Prelude.{
  ℕ, zero, suc, ◌+◌, ◌%◌, ◌<◌, Bool, true, false, not, ◌&&◌, ◌||◌, Option, none, some, List, [],
  ◌∷◌, map, ◌≡◌, ◌≢◌, ◌↔◌, refl, sym, subst, arith,
}
use spiceai.Prelude.Lists.{length, take}
use spiceai.Prelude.Tests.{nat_beq, ltb, if◌then◌else◌}
use spiceai.Prelude.Result.{Result, ok}
use spiceai.Prelude.Text.{Text, codes, ◌==◌}
use spiceai.Arrow.{Schema}
use spiceai.ArrowTools.{verify_schema}
use spiceai.Dataset.{TableReference, bare}
use spiceai.Cache.{CachedQueryResult, Moka, QueryResultsCacheProvider, get}
use spiceai.Cache.Plan.{
  LogicalPlan, table_scan, explain, node, Plans, nil, cons, contains, get_logical_plan_input_tables,
  cache_is_enabled_for_plan, same,
}
use spiceai.Cache.Walks.{
  some_node, scans, forbidden, get_logical_plan_input_tables-scans,
  cache_is_enabled_for_plan-forbidden,
}
use spiceai.Cache.Stream.{
  to_cached_record_batch_stream, to_cached_record_batch_stream-puts, batches, memory, usize_bound,
}
use spiceai.Cache.Query.{Query, QueryResult, Engine, Setting, Error, run, inner_polls}
use spiceai.Cache.Fresh.{Left, run-Left}
use spiceai.Cache.Steps.{Naming}

abbrev a : TableReference
a = bare (codes "a")

abbrev b : TableReference
b = TableReference.partial (codes "runtime") (codes "b")

abbrev join : LogicalPlan
join = node (cons (table_scan a) (cons (node (cons (table_scan b) (cons (table_scan a) nil))) nil))

get_logical_plan_input_tables-scans_example :
    (ts : List TableReference) × (get_logical_plan_input_tables join ≡ some ts)
    × ((t : TableReference) → contains ts t ≡ some_node (scans t) join)
get_logical_plan_input_tables-scans_example = get_logical_plan_input_tables-scans join

cache_is_enabled_for_plan-forbidden_example :
    cache_is_enabled_for_plan (codes "runtime" ∷ []) join
    ≡ some (not (some_node (forbidden (codes "runtime" ∷ [])) join))
cache_is_enabled_for_plan-forbidden_example =
    cache_is_enabled_for_plan-forbidden (codes "runtime" ∷ []) join

cache_is_enabled_for_plan_test : cache_is_enabled_for_plan (codes "runtime" ∷ []) join ≡ some false
unfolding cache_is_enabled_for_plan spiceai.Cache.Plan.cache_is_enabled_loop spiceai.Cache.Plan.size
    spiceai.Cache.Plan.verdict spiceai.Cache.Plan.extend spiceai.Cache.Plan.inputs ◌==◌
cache_is_enabled_for_plan_test = refl

abbrev Value : Type 0
Value = CachedQueryResult ℕ Schema

abbrev Store : Type 0
Store = ℕ → Option Value

abbrev keep_unless : (ℕ → Value → Bool) → Store → Store
keep_unless p s k = elim (s k) [ none ↦ none | some v ↦ if p k v then none else some v ]

abbrev moka : Moka Value Store Text
moka = record {
  get = λ s k. s k;
  insert = λ s k v l. if nat_beq k l then some v else s l;
  invalidate_entries_if = λ s p. ok (keep_unless p s);
  evict = λ s n k. if nat_beq k n then none else s k;
}

to_cached_record_batch_stream-puts_example :
    to_cached_record_batch_stream {E = Text} moka
      (λ n. n)
      (λ _. none)
      10
      []
      (ok 3 ∷ ok 6 ∷ [])
      5
      (a ∷ [])
      3
    ≡ (
      take 3 (ok 3 ∷ ok 6 ∷ []),
      if ltb 2 3 && ltb 9 10
          then moka.insert
              (λ _. none)
              5
              (record { records = 3 ∷ 6 ∷ []; schema = []; input_tables = a ∷ [] })
          else λ _. none,
    )
unfolding memory batches
to_cached_record_batch_stream-puts_example =
    to_cached_record_batch_stream-puts moka (λ n. n) (λ _. none) 10 [] (ok 3 ∷ ok 6 ∷ []) 5 (a ∷ [])
      3 (omega arith)

unfoldable resolved : TableReference → TableReference
resolved (TableReference.partial s t) =
    if s == codes "public" then bare t else TableReference.partial s t
resolved t = t

-- A table is found in the schema `public`, too.
abbrev naming : Naming TableReference
naming = record { resolve = resolved; dataset_of = λ t. t }

-- What a plan answers.
unfoldable mutual
  sum : (TableReference → ℕ) → LogicalPlan → ℕ
  sum d (table_scan t) = d (resolved t)
  sum d (node ps) = sum_all d ps
  sum d _ = 0

  sum_all : (TableReference → ℕ) → Plans → ℕ
  sum_all d nil = 0
  sum_all d (cons p ps) = sum d p + sum_all d ps

abbrev plan_of : Text → LogicalPlan
plan_of sql = if sql == codes "a" then table_scan a else join

unfoldable engine : (TableReference → ℕ) → Engine ℕ Text
unfolding sum
engine d = record {
  create_logical_plan = λ sql. ok (plan_of sql);
  verify_plan = λ p. ok tt;
  df_schema = λ p. [];
  execute_stream = λ p. ok ([], ok (sum d p % 100) ∷ []);
  memory_stream = λ records schema. ok (map ok records);
}

unfoldable key : LogicalPlan → ℕ
key (table_scan t) = 1
key _ = 2

abbrev setting : Setting ℕ Store Text
setting = record {
  moka = moka;
  key_for_logical_plan = key;
  get_array_memory_size = λ n. n;
  same_type = λ x y. true;
}

bounded_lem :
    (d : TableReference → ℕ) (plan : LogicalPlan) (schema : Schema) (items : List (Result Text ℕ))
    → (engine d).execute_stream plan ≡ ok (schema, items)
    → memory (λ m. m) items < usize_bound
unfolding memory engine
bounded_lem d plan schema items h =
    let one_batch : ok (sum d plan % 100) ∷ [] ≡ items = ground (arith, h) in
    subst (λ is. memory (λ m. m) is < usize_bound) one_batch (omega arith)

abbrev select : Text → Query
select sql = record { sql = sql; restricted_sql_options = true }

abbrev sevens : TableReference → ℕ
sevens t = 7

-- Behind a change of the table `b`.
abbrev changed : TableReference → ℕ
changed t = if same t b then 9 else 7

abbrev answer_of_a : Value
answer_of_a = record { records = 7 ∷ []; schema = []; input_tables = a ∷ [] }

abbrev answer_of_join : Value
answer_of_join = record { records = 21 ∷ []; schema = []; input_tables = b ∷ a ∷ [] }

abbrev filled : Store
filled = moka.insert (moka.insert (λ _. none) 1 answer_of_a) 2 answer_of_join

-- A provider with that cache.
abbrev with_cache : Store → QueryResultsCacheProvider Store ℕ
with_cache s = record { cache = s; cache_max_size = 1000; ttl = 1; ignore_schemas = [] }

abbrev only_a : Store
only_a = moka.insert (λ _. none) 1 answer_of_a

run_a :
    run setting (engine sevens) (select (codes "a")) (some (with_cache (λ _. none))) 2
    ≡ some (ok (record { data_ = ok 7 ∷ []; from_cache = some false }), some (with_cache only_a))
unfolding run engine spiceai.Cache.Query.cached_result get spiceai.Cache.Query.run_uncached
    spiceai.Cache.Query.plan_is_cache_enabled cache_is_enabled_for_plan
    spiceai.Cache.Plan.cache_is_enabled_loop spiceai.Cache.Plan.size ◌==◌ spiceai.Cache.Plan.verdict
    spiceai.Cache.Query.verify_restricted get_logical_plan_input_tables
    spiceai.Cache.Plan.input_tables_loop spiceai.Cache.Plan.extend spiceai.Cache.Plan.inputs
    spiceai.Cache.Query.execute spiceai.ArrowTools.verify_field spiceai.ArrowTools.verify_from
    verify_schema contains spiceai.Cache.Plan.insert spiceai.Cache.Plan.note_table same
    spiceai.Cache.Plan.schema spiceai.Cache.Query.answer spiceai.Cache.Query.from_memory inner_polls
    spiceai.Cache.Stream.cached_stream spiceai.Cache.Stream.finish spiceai.Cache.Stream.keep_batch
    spiceai.Cache.Stream.put_stored to_cached_record_batch_stream spiceai.Cache.put_key
    spiceai.Prelude.Lists.any sum resolved key
run_a = refl

run-Left_example : Left setting (engine sevens) (with_cache (λ _. none)) (some (with_cache only_a))
run-Left_example =
    run-Left setting (engine sevens) (with_cache (λ _. none)) (bounded_lem sevens)
      (select (codes "a")) 2 (ok (record { data_ = ok 7 ∷ []; from_cache = some false }))
      (some (with_cache only_a)) run_a

-- The cache without what used the table `b`.
abbrev refreshed : Store
refreshed = keep_unless (λ _ v. contains v.input_tables b) filled
