-- ===== src/Cache/Current.antt =====
-- The results cache along queries, refreshes and evictions.
use spiceai.Prelude.{
  ℕ, Option, some, List, map, ◌≡◌, ◌≢◌, ◌⊎◌, inl, inr, refl, sym, ap, subst, ◌∙◌, arith,
}
use spiceai.Prelude.Result.{Result, ok, Result-cases}
use spiceai.Arrow.{Schema}
use spiceai.Dataset.{TableReference}
use spiceai.Cache.Plan.{LogicalPlan, contains, get_logical_plan_input_tables}
use spiceai.Cache.Walks.{some_node, scans, get_logical_plan_input_tables-scans}
use spiceai.Cache.{CachedQueryResult, Moka, QueryResultsCacheProvider, invalidate_for_table, get}
use spiceai.Cache.Stream.{batches}
use spiceai.Cache.Query.{Query, Engine, Setting}
use spiceai.Cache.Fresh.{Left, as_before, with_result, stored, run-Left}
use spiceai.Cache.Steps.{
  IsReliable, Naming, World, query, refresh, evict, Reachable, start, next, IsCurrent, AllCurrent,
}

invalidated-ok :
    {Batch State P : Type 0} (moka : Moka (CachedQueryResult Batch Schema) State P)
    (cache cache' : State) (t : TableReference)
    → invalidate_for_table moka {B = Unit {0}} {D = Unit {0}} cache t ≡ ok cache'
    → moka.invalidate_entries_if cache (λ _ value. contains value.input_tables t) ≡ ok cache'
unfolding invalidate_for_table
invalidated-ok moka cache cache' t h = ground (
  arith,
  h,
  Result-cases (moka.invalidate_entries_if cache (λ _ value. contains value.input_tables t)),
)

nat-cases : (a b : ℕ) → (a ≡ b) ⊎ (a ≢ b)
nat-cases a b = ground arith

module _ {Name Data Batch E State P : Type 0} (setting : Setting Batch State P)
    (engine : (Name → Data) → Engine Batch E) (naming : Naming Name)
    (reliable : IsReliable setting engine) where
  AllCurrent-insert :
      (d : Name → Data) (cache : State) (l : ℕ) (w : CachedQueryResult Batch Schema)
      → AllCurrent setting engine naming d cache
      → IsCurrent setting engine naming d l w
      → AllCurrent setting engine naming d (setting.moka.insert cache l w)
  AllCurrent-insert d cache l w all c k v h = elim (nat-cases l k) [
    | inl e ↦
        subst (IsCurrent setting engine naming d k)
          (reliable.sound.insert_same cache k w v
            (subst (λ n. setting.moka.get (setting.moka.insert cache n w) k ≡ some v) e h))
          (subst (λ n. IsCurrent setting engine naming d n w) e c)
    | inr n ↦ all k v (reliable.sound.insert_other cache l k w v n h)
  ]

  IsCurrent-result :
      (d : Name → Data) (plan : LogicalPlan) (ts : List TableReference) (schema : Schema)
      (items : List (Result E Batch))
      → get_logical_plan_input_tables plan ≡ some ts
      → (engine d).execute_stream plan ≡ ok (schema, items)
      → items ≡ map ok (batches items)
      → IsCurrent setting engine naming d
          (setting.key_for_logical_plan plan)
          (record { records = batches items; schema = schema; input_tables = ts })
  IsCurrent-result d plan ts schema items t e c =
      let (ts', t', m) = get_logical_plan_input_tables-scans plan in
      let same_tables : ts' ≡ ts = ground (arith, t, t') in
      (
        plan,
        d,
        refl,
        subst (λ us. (u : TableReference) → contains us u ≡ some_node (scans u) plan) same_tables m,
        e ∙ ap (λ is. ok (schema, is)) c,
        λ t scanned own. refl,
      )

  AllCurrent-refresh :
      (d d' : Name → Data) (cache cache' : State) (n : Name)
      → ((u : Name) → u ≢ n → d u ≡ d' u)
      → invalidate_for_table setting.moka {B = Unit {0}} {D = Unit {0}} cache (naming.dataset_of n)
        ≡ ok cache'
      → AllCurrent setting engine naming d cache
      → AllCurrent setting engine naming d' cache'
  AllCurrent-refresh d d' cache cache' n same i all k v h =
      let t = naming.dataset_of n in
      let (h', not_used) =
        reliable.sound.invalidated cache cache' (λ _ value. contains value.input_tables t) k v
          (invalidated-ok setting.moka cache cache' t i) h in
      let (plan, d₀, key, tables, e, unchanged) = all k v h' in
      (
        plan,
        d₀,
        key,
        tables,
        e,
        λ u scanned own.
            unchanged u scanned own
            ∙ same (naming.resolve u) (λ is_n.
              let is_t : t ≡ u = sym (ap naming.dataset_of is_n) ∙ own in
              ground (arith, tables u, scanned, not_used, is_t)),
      )

-- A step keeps every cached value current.
module _ {Name Data Batch E State Duration P : Type 0} (setting : Setting Batch State P)
    (engine : (Name → Data) → Engine Batch E) (naming : Naming Name)
    (reliable : IsReliable setting engine) where
  AllCurrent-Left :
      (d : Name → Data) (p p' : QueryResultsCacheProvider State Duration)
      → AllCurrent setting engine naming d p.cache
      → (left : Option (QueryResultsCacheProvider State Duration)) → Left setting (engine d) p left
      → left ≡ some p'
      → AllCurrent setting engine naming d p'.cache
  AllCurrent-Left d p p' all _ as_before e =
      let is_p : p ≡ p' = ground (arith, e) in
      subst (λ q. AllCurrent setting engine naming d q.cache) is_p all
  AllCurrent-Left d p p' all _ (with_result sql plan ts schema items m t x c) e =
      let is_stored : stored setting (engine d) p plan ts schema items ≡ p' = ground (arith, e) in
      subst (λ q. AllCurrent setting engine naming d q.cache) is_stored
        (AllCurrent-insert setting engine naming reliable d p.cache
          (setting.key_for_logical_plan plan)
          (record { records = batches items; schema = schema; input_tables = ts }) all
          (IsCurrent-result setting engine naming reliable d plan ts schema items t x c))

  -- In every state that is reached from an empty cache each cached value is current.
  pub Reachable-current :
      (w : World Name Data State Duration)
      → Reachable setting engine naming w
      → AllCurrent setting engine naming w.0 w.1.cache
  Reachable-current _ (start d p empty) k v h = absurd (ground (arith, h, empty k))
  Reachable-current _ (next before (query d q p self polls r h)) k v g =
      AllCurrent-Left d q p (Reachable-current _ before) (some p)
        (run-Left setting (engine d) q (reliable.bounded d) self polls r (some p) h) refl k v g
  Reachable-current _ (next before (refresh d d' q n cache same i)) k v g =
      AllCurrent-refresh setting engine naming reliable d d' q.cache cache n same i
        (Reachable-current _ before) k v g
  Reachable-current _ (next before (evict d q n)) k v h =
      Reachable-current _ before k v (reliable.sound.evicted q.cache n k v h)
