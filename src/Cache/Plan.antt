-- ===== src/Cache/Plan.antt =====
-- crates/cache/src/utils.rs, lib.rs: the walks over a logical plan.
--
-- Of a `LogicalPlan` the model keeps the variants that the walks tell apart, and `node` for every
-- other one with the plans that `inputs()` gives. A stack is the list of its elements, the top
-- first. A `HashSet` is a list without its order.
use spiceai.Prelude.{ℕ, zero, suc, ◌+◌, Bool, true, false, ◌&&◌, Option, none, some, List, [], ◌∷◌}
use spiceai.Prelude.Lists.{any}
use spiceai.Prelude.Tests.{if◌then◌else◌}
use spiceai.Prelude.Text.{Text, ◌==◌}
use spiceai.Dataset.{TableReference, bare, partial, full}

mutual
  pub data LogicalPlan : Type 0 where
    table_scan : TableReference → LogicalPlan
    explain : LogicalPlan → LogicalPlan
    analyze : LogicalPlan → LogicalPlan
    describe_table statement : LogicalPlan
    node : Plans → LogicalPlan

  pub data Plans : Type 0 where
    nil : Plans
    cons : LogicalPlan → Plans → Plans

unfoldable pub inputs : LogicalPlan → Plans
inputs (table_scan t) = nil
inputs (explain p) = cons p nil
inputs (analyze p) = cons p nil
inputs describe_table = nil
inputs statement = nil
inputs (node ps) = ps

-- `Vec::extend` on the stack.
unfoldable pub extend : Plans → Plans → Plans
extend stack nil = stack
extend stack (cons p ps) = extend (cons p stack) ps

-- The number of nodes, the bound on the walks.
unfoldable mutual
  pub size : LogicalPlan → ℕ
  size (table_scan t) = 1
  size (explain p) = suc (size p)
  size (analyze p) = suc (size p)
  size describe_table = 1
  size statement = 1
  size (node ps) = suc (size_all ps)

  pub size_all : Plans → ℕ
  size_all nil = 0
  size_all (cons p ps) = size p + size_all ps

-- `TableReference::schema`
unfoldable pub schema : TableReference → Option Text
schema (bare t) = none
schema (partial s t) = some s
schema (full c s t) = some s

-- `==` on references, which tells a table's spellings apart.
unfoldable pub same : TableReference → TableReference → Bool
same (bare t) (bare t') = t == t'
same (partial s t) (partial s' t') = s == s' && t == t'
same (full c s t) (full c' s' t') = c == c' && (s == s' && t == t')
same _ _ = false

-- `HashSet::contains` and `HashSet::insert`
unfoldable pub contains : List TableReference → TableReference → Bool
unfolding any
contains ts t = any (same t) ts

unfoldable pub insert : List TableReference → TableReference → List TableReference
insert ts t = if contains ts t then ts else t ∷ ts

-- One node's part of the first walk.
unfoldable pub note_table : LogicalPlan → List TableReference → List TableReference
note_table (table_scan t) names = insert names t
note_table _ names = names

-- The loop of `get_logical_plan_input_tables`; `none` is that the fuel ran out.
unfoldable pub input_tables_loop : ℕ → Plans → List TableReference → Option (List TableReference)
input_tables_loop fuel nil names = some names
input_tables_loop zero (cons p stack) names = none
input_tables_loop (suc fuel) (cons p stack) names =
    input_tables_loop fuel (extend stack (inputs p)) (note_table p names)

unfoldable pub get_logical_plan_input_tables : LogicalPlan → Option (List TableReference)
get_logical_plan_input_tables plan = input_tables_loop (size plan) (cons plan nil) []

-- What the second walk does at a node: `return false`, `continue`, or go on with the inputs.
pub data Verdict : Type 0 where
  refuse skip descend : Verdict

unfoldable pub verdict : List Text → LogicalPlan → Verdict
unfolding any schema
verdict ignore (table_scan t) = elim (schema t) [
  | none ↦ skip
  | some s ↦ if any (λ ignore_schema. s == ignore_schema) ignore then refuse else descend
]
verdict ignore (explain p) = refuse
verdict ignore (analyze p) = refuse
verdict ignore describe_table = refuse
verdict ignore statement = refuse
verdict ignore (node ps) = descend

-- The loop of `cache_is_enabled_for_plan`.
unfoldable pub cache_is_enabled_loop : List Text → ℕ → Plans → Option Bool
cache_is_enabled_loop ignore fuel nil = some true
cache_is_enabled_loop ignore zero (cons p stack) = none
cache_is_enabled_loop ignore (suc fuel) (cons p stack) =
    let skipped = cache_is_enabled_loop ignore fuel stack in
    let descended = cache_is_enabled_loop ignore fuel (extend stack (inputs p)) in
    elim (verdict ignore p) [ refuse ↦ some false | skip ↦ skipped | descend ↦ descended ]

unfoldable pub cache_is_enabled_for_plan : List Text → LogicalPlan → Option Bool
cache_is_enabled_for_plan ignore plan = cache_is_enabled_loop ignore (size plan) (cons plan nil)
