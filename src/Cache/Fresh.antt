-- ===== src/Cache/Fresh.antt =====
-- crates/runtime/src/datafusion/query.rs with crates/cache/src: what a query leaves in the results cache.
use spiceai.Prelude.{
  ℕ, zero, suc, ◌<◌, Bool, true, false, ◌&&◌, Option, some, List, [], ◌∷◌, map, ◌≡◌, ◌⊎◌, inl, inr,
  refl, sym, ap, subst, arith,
}
use spiceai.Prelude.Lists.{length}
use spiceai.Prelude.Tests.{if◌then◌else◌, ltb, Option-cases}
use spiceai.Prelude.Result.{Result, ok, err, Result-cases}
use spiceai.Prelude.Text.{Text}
use spiceai.Arrow.{Schema}
use spiceai.ArrowTools.{verify_schema}
use spiceai.Dataset.{TableReference}
use spiceai.Cache.Plan.{LogicalPlan, get_logical_plan_input_tables}
use spiceai.Cache.{QueryResultsCacheProvider}
use spiceai.Cache.Stream.{batches, memory, usize_bound, to_cached_record_batch_stream-puts}
use spiceai.Cache.Query.{
  Query, QueryResult, Engine, Setting, Error, inner_polls, cached_result, plan_is_cache_enabled,
  answer, verify_restricted, execute, run_uncached, run,
}

module _ {Batch E : Type 0} where
  -- A stream that the tracker reads beyond its end has no error.
  no_error :
      (items : List (Result E Batch)) (polls : ℕ)
      → length items < inner_polls items polls
      → items ≡ map ok (batches items)
  unfolding inner_polls batches
  no_error items zero h = absurd (omega (arith, h))
  no_error [] (suc polls) h = refl
  no_error (ok b ∷ items) (suc polls) h = ap (◌∷◌ (ok b)) (no_error items polls (omega (arith, h)))
  no_error (err e ∷ items) (suc polls) h = absurd (omega (arith, h))

module _ {Batch E State Duration P : Type 0} (setting : Setting Batch State P)
    (engine : Engine Batch E) (p : QueryResultsCacheProvider State Duration) where
  -- The provider with the result of a plan.
  abbrev pub stored :
      LogicalPlan
      → List TableReference
      → Schema
      → List (Result E Batch)
      → QueryResultsCacheProvider State Duration
  stored plan ts schema items = record p {
    cache =
        setting.moka.insert p.cache (setting.key_for_logical_plan plan)
          (record { records = batches items; schema = schema; input_tables = ts });
  }

  -- What a query leaves: the provider as it was, or with the complete result of its plan.
  pub data Left : Option (QueryResultsCacheProvider State Duration) → Type 0 where
    as_before : Left (some p)
    with_result :
        (sql : Text) (plan : LogicalPlan) (ts : List TableReference) (schema : Schema)
        (items : List (Result E Batch))
        → engine.create_logical_plan sql ≡ ok plan
        → get_logical_plan_input_tables plan ≡ some ts
        → engine.execute_stream plan ≡ ok (schema, items)
        → items ≡ map ok (batches items)
        → Left (some (stored plan ts schema items))

module _ {Batch E State Duration P : Type 0} (setting : Setting Batch State P)
    (engine : Engine Batch E) (p : QueryResultsCacheProvider State Duration) where
  Left-if :
      (sql : Text) (plan : LogicalPlan) (ts : List TableReference) (polls : ℕ) (schema : Schema)
      (items : List (Result E Batch))
      → engine.create_logical_plan sql ≡ ok plan
      → get_logical_plan_input_tables plan ≡ some ts
      → engine.execute_stream plan ≡ ok (schema, items)
      → (c : Bool) → (c ≡ true → length items < inner_polls items polls)
      → Left setting engine p (
          some (record p {
            cache = if c then (stored setting engine p plan ts schema items).cache else p.cache;
          }))
  Left-if sql plan ts polls schema items c t e true h =
      with_result sql plan ts schema items c t e (no_error items polls (h refl))
  Left-if sql plan ts polls schema items c t e false h = as_before

  answer-Left :
      (sql : Text) (enabled : Bool) (plan : LogicalPlan) (ts : List TableReference) (polls : ℕ)
      (schema : Schema) (items : List (Result E Batch))
      → engine.create_logical_plan sql ≡ ok plan
      → get_logical_plan_input_tables plan ≡ some ts
      → engine.execute_stream plan ≡ ok (schema, items)
      → memory setting.get_array_memory_size items < usize_bound
      → Left setting engine p (answer setting (some p) enabled plan ts polls (schema, items)).1
  unfolding answer
  answer-Left sql false plan ts polls schema items c t e b = as_before
  answer-Left sql true plan ts polls schema items c t e b =
      rw
        (to_cached_record_batch_stream-puts setting.moka setting.get_array_memory_size p.cache
          p.cache_max_size schema items (setting.key_for_logical_plan plan) ts
          (inner_polls items polls) b)
        (Left-if sql plan ts polls schema items c t e
          (ltb (length items) (inner_polls items polls)
            && ltb (memory setting.get_array_memory_size items) p.cache_max_size)
          (λ read. ground (arith, read)))

module _ {Batch E State P : Type 0} (setting : Setting Batch State P)
    (engine : Engine Batch E) where
  execute-ok :
      (plan : LogicalPlan) (res : Schema × List (Result E Batch))
      → execute setting engine plan ≡ ok res
      → engine.execute_stream plan ≡ ok res
  unfolding execute
  execute-ok plan res h = ground (
    arith,
    h,
    Result-cases (engine.execute_stream plan),
    Result-cases (verify_schema setting.same_type (engine.df_schema plan) res.0),
  )

module _ {Batch E State Duration P : Type 0} (setting : Setting Batch State P)
    (engine : Engine Batch E) (p : QueryResultsCacheProvider State Duration)
    (bounded : (plan : LogicalPlan) (schema : Schema) (items : List (Result E Batch))
      → engine.execute_stream plan ≡ ok (schema, items)
      → memory setting.get_array_memory_size items < usize_bound) where
  run_uncached-cases :
      (self : Query) (plan : LogicalPlan) (polls : ℕ) (r : Result (Error E) (QueryResult Batch E))
      (left : Option (QueryResultsCacheProvider State Duration))
      → run_uncached setting engine self (some p) plan polls ≡ some (r, left)
      → (left ≡ some p)
        ⊎ ((enabled : Bool) × (ts : List TableReference) × (schema : Schema) × (items : List
              (Result E Batch))
            × (get_logical_plan_input_tables plan ≡ some ts)
            × (execute setting engine plan ≡ ok (schema, items))
            × (left ≡ (answer setting (some p) enabled plan ts polls (schema, items)).1))
  unfolding run_uncached
  run_uncached-cases self plan polls r left h =
      elim (Option-cases (plan_is_cache_enabled (some p) plan)) [
        | inl a ↦ absurd (ground (arith, h, a))
        | inr (enabled, a) ↦ elim (Result-cases (verify_restricted engine self plan)) [
          | inr (e, c) ↦ inl (ground (arith, h, a, c))
          | inl (u, c) ↦ elim (Option-cases (get_logical_plan_input_tables plan)) [
            | inl d ↦ absurd (ground (arith, h, a, c, d))
            | inr (ts, d) ↦ elim (Result-cases (execute setting engine plan)) [
              | inr (e, k) ↦ inl (ground (arith, h, a, c, d, k))
              | inl ((schema, items), k) ↦
                  inr (enabled, ts, schema, items, d, k, ground (arith, h, a, c, d, k))
            ]
          ]
        ]
      ]

  run_uncached-Left :
      (self : Query) (plan : LogicalPlan) (polls : ℕ) (r : Result (Error E) (QueryResult Batch E))
      (left : Option (QueryResultsCacheProvider State Duration))
      → engine.create_logical_plan self.sql ≡ ok plan
      → run_uncached setting engine self (some p) plan polls ≡ some (r, left)
      → Left setting engine p left
  run_uncached-Left self plan polls r left c h =
      elim (run_uncached-cases self plan polls r left h) [
        | inl e ↦ subst (Left setting engine p) (sym e) as_before
        | inr (enabled, ts, schema, items, t, k, e) ↦
            let x = execute-ok setting engine plan (schema, items) k in
            subst (Left setting engine p) (sym e) (
              answer-Left setting engine p self.sql enabled plan ts polls schema items c t x
                (bounded plan schema items x))
      ]

  -- When no stream takes 2^64 bytes: a query leaves the results cache as it was, or puts in, under the
  -- key of a statement's plan, the batches of an execution of that plan that was read to its end and
  -- had no error, with the tables that the plan scans.
  pub run-Left :
      (self : Query) (polls : ℕ) (r : Result (Error E) (QueryResult Batch E))
      (left : Option (QueryResultsCacheProvider State Duration))
      → run setting engine self (some p) polls ≡ some (r, left)
      → Left setting engine p left
  unfolding run
  run-Left self polls r left h = elim (Result-cases (engine.create_logical_plan self.sql)) [
    | inr (e, c) ↦
        let k : some p ≡ left = (ground (arith, h, c)) in subst (Left setting engine p) k as_before
    | inl (plan, c) ↦ elim (Option-cases (cached_result setting (some p) plan)) [
      | inr (cached, d) ↦
          let k : some p ≡ left = (ground (arith, h, c, d)) in
          subst (Left setting engine p) k as_before
      | inl d ↦ run_uncached-Left self plan polls r left c (ground (arith, h, c, d))
    ]
  ]
