-- ===== src/Cache/Walks.antt =====
-- The walks over a logical plan end, and see every node of it.
use spiceai.Prelude.{
  ℕ, zero, suc, ◌+◌, ◌≤◌, Bool, true, false, not, ◌||◌, none, some, List, [], ◌≡◌, ◌↔◌, ◌⊎◌, inl,
  inr, refl, arith,
}
use spiceai.Prelude.Lists.{any}
use spiceai.Prelude.Text.{Text, ◌==◌, ==_iff}
use spiceai.Dataset.{TableReference, bare, partial, full}
use spiceai.Cache.Plan.{
  LogicalPlan, table_scan, explain, analyze, describe_table, statement, node, Plans, nil, cons,
  inputs, extend, size, size_all, schema, same, contains, insert, note_table, input_tables_loop,
  get_logical_plan_input_tables, refuse, skip, descend, verdict, cache_is_enabled_loop,
  cache_is_enabled_for_plan,
}

-- Some node of the plan passes a test.
unfoldable mutual
  pub some_node : (LogicalPlan → Bool) → LogicalPlan → Bool
  some_node f (table_scan t) = f (table_scan t)
  some_node f (explain p) = f (explain p) || some_node f p
  some_node f (analyze p) = f (analyze p) || some_node f p
  some_node f describe_table = f describe_table
  some_node f statement = f statement
  some_node f (node ps) = f (node ps) || some_node_of f ps

  pub some_node_of : (LogicalPlan → Bool) → Plans → Bool
  some_node_of f nil = false
  some_node_of f (cons p ps) = some_node f p || some_node_of f ps

-- A scan of the table.
unfoldable pub scans : TableReference → LogicalPlan → Bool
scans t (table_scan u) = same t u
scans t _ = false

-- A node whose result is not cached.
unfoldable pub forbidden : List Text → LogicalPlan → Bool
unfolding any schema
forbidden ignore (table_scan t) = elim (schema t) [
  | none ↦ false
  | some s ↦ any (λ u. s == u) ignore
]
forbidden ignore (node ps) = false
forbidden ignore _ = true

pub same_iff : (t u : TableReference) → (same t u ≡ true) ↔ (t ≡ u)
unfolding same
same_iff (bare t) (bare t') = ground (arith, ==_iff t t')
same_iff (partial s t) (partial s' t') = ground (arith, ==_iff t t', ==_iff s s')
same_iff (full c s t) (full c' s' t') = ground (arith, ==_iff t t', ==_iff s s', ==_iff c c')
same_iff (bare t) (partial s' t') = ground arith
same_iff (bare t) (full c' s' t') = ground arith
same_iff (partial s t) (bare t') = ground arith
same_iff (partial s t) (full c' s' t') = ground arith
same_iff (full c s t) (bare t') = ground arith
same_iff (full c s t) (partial s' t') = ground arith

size_all-extend : (stack ps : Plans) → size_all (extend stack ps) ≡ size_all stack + size_all ps
unfolding extend size
size_all-extend stack nil = omega arith
size_all-extend stack (cons p ps) = ground (arith, size_all-extend (cons p stack) ps)

some_node_of-extend :
    (f : LogicalPlan → Bool) (stack ps : Plans)
    → some_node_of f (extend stack ps) ≡ (some_node_of f stack || some_node_of f ps)
unfolding extend some_node
some_node_of-extend f stack nil = ground arith
some_node_of-extend f stack (cons p ps) = ground (arith, some_node_of-extend f (cons p stack) ps)

size-inputs : (p : LogicalPlan) → size p ≡ suc (size_all (inputs p))
unfolding size inputs
size-inputs (table_scan t) = refl
size-inputs (explain p) = omega arith
size-inputs (analyze p) = omega arith
size-inputs describe_table = refl
size-inputs statement = refl
size-inputs (node ps) = refl

some_node-inputs :
    (f : LogicalPlan → Bool) (p : LogicalPlan) → some_node f p ≡ (f p || some_node_of f (inputs p))
unfolding some_node inputs
some_node-inputs f (table_scan t) = ground arith
some_node-inputs f (explain p) = ground arith
some_node-inputs f (analyze p) = ground arith
some_node-inputs f describe_table = ground arith
some_node-inputs f statement = ground arith
some_node-inputs f (node ps) = ground arith

contains-insert :
    (ts : List TableReference) (t u : TableReference)
    → contains (insert ts t) u ≡ (contains ts u || same u t)
unfolding contains insert any
contains-insert ts t u = ground (arith, same_iff u t)

contains-note_table :
    (p : LogicalPlan) (ts : List TableReference) (t : TableReference)
    → contains (note_table p ts) t ≡ (contains ts t || scans t p)
unfolding note_table scans
contains-note_table (table_scan u) ts t = contains-insert ts u t
contains-note_table (explain p) ts t = ground arith
contains-note_table (analyze p) ts t = ground arith
contains-note_table describe_table ts t = ground arith
contains-note_table statement ts t = ground arith
contains-note_table (node ps) ts t = ground arith

input_tables_loop-total :
    (fuel : ℕ) (stack : Plans) (names : List TableReference)
    → size_all stack ≤ fuel
    → (ts : List TableReference) × (input_tables_loop fuel stack names ≡ some ts)
      × ((t : TableReference) → contains ts t ≡ (contains names t || some_node_of (scans t) stack))
unfolding input_tables_loop size some_node
input_tables_loop-total fuel nil names h = (names, refl, λ t. ground arith)
input_tables_loop-total zero (cons p stack) names h = absurd (ground (arith, size-inputs p))
input_tables_loop-total (suc fuel) (cons p stack) names h =
    let (ts, e, m) =
      input_tables_loop-total fuel (extend stack (inputs p)) (note_table p names)
        (omega (arith, size_all-extend stack (inputs p), size-inputs p)) in
    (
      ts,
      e,
      λ t. ground (
        arith,
        m t,
        contains-note_table p names t,
        some_node_of-extend (scans t) stack (inputs p),
        some_node-inputs (scans t) p,
      ),
    )

-- The walk for the input tables of a plan ends, and the set that it gives holds a table exactly when
-- some node of the plan scans that table under that spelling.
pub get_logical_plan_input_tables-scans :
    (plan : LogicalPlan)
    → (ts : List TableReference) × (get_logical_plan_input_tables plan ≡ some ts)
      × ((t : TableReference) → contains ts t ≡ some_node (scans t) plan)
unfolding get_logical_plan_input_tables size some_node contains any
get_logical_plan_input_tables-scans plan =
    let (ts, e, m) = input_tables_loop-total (size plan) (cons plan nil) [] (omega arith) in
    (ts, e, λ t. ground (arith, m t))

-- What the second walk does at a node agrees with the test of that node.
verdict-cases :
    (ignore : List Text) (p : LogicalPlan)
    → ((verdict ignore p ≡ refuse) × (forbidden ignore p ≡ true))
      ⊎ (((verdict ignore p ≡ skip) × (forbidden ignore p ≡ false) × (inputs p ≡ nil))
          ⊎ ((verdict ignore p ≡ descend) × (forbidden ignore p ≡ false)))
unfolding verdict forbidden inputs
verdict-cases ignore (table_scan (bare t)) = inr (inl (refl, refl, refl))
verdict-cases ignore (table_scan (partial s t)) = ground arith
verdict-cases ignore (table_scan (full c s t)) = ground arith
verdict-cases ignore (explain p) = inl (refl, refl)
verdict-cases ignore (analyze p) = inl (refl, refl)
verdict-cases ignore describe_table = inl (refl, refl)
verdict-cases ignore statement = inl (refl, refl)
verdict-cases ignore (node ps) = inr (inr (refl, refl))

cache_is_enabled_loop-total :
    (ignore : List Text) (fuel : ℕ) (stack : Plans)
    → size_all stack ≤ fuel
    → cache_is_enabled_loop ignore fuel stack ≡ some (not (some_node_of (forbidden ignore) stack))
unfolding cache_is_enabled_loop size some_node
cache_is_enabled_loop-total ignore fuel nil h = refl
cache_is_enabled_loop-total ignore zero (cons p stack) h = absurd (ground (arith, size-inputs p))
cache_is_enabled_loop-total ignore (suc fuel) (cons p stack) h = elim (verdict-cases ignore p) [
  | inl (v, f) ↦ ground (v, arith, some_node-inputs (forbidden ignore) p)
  | inr (inl (v, f, leaf)) ↦ ground (
    arith,
    v,
    some_node-inputs (forbidden ignore) p,
    size-inputs p,
    leaf,
    cache_is_enabled_loop-total ignore fuel stack,
  )
  | inr (inr (v, f)) ↦ ground (
    arith,
    v,
    some_node-inputs (forbidden ignore) p,
    size-inputs p,
    size_all-extend stack (inputs p),
    some_node_of-extend (forbidden ignore) stack (inputs p),
    cache_is_enabled_loop-total ignore fuel (extend stack (inputs p)),
  )
]

-- The walk that decides on caching ends. It allows it exactly when no node of the plan is an EXPLAIN,
-- an ANALYZE, a DESCRIBE or a statement, nor a scan of a table that is written with an ignored schema.
pub cache_is_enabled_for_plan-forbidden :
    (ignore : List Text) (plan : LogicalPlan)
    → cache_is_enabled_for_plan ignore plan ≡ some (not (some_node (forbidden ignore) plan))
unfolding cache_is_enabled_for_plan size some_node
cache_is_enabled_for_plan-forbidden ignore plan =
    ground (arith, cache_is_enabled_loop-total ignore (size plan) (cons plan nil))
