-- ===== src/ExecutionPlan/Answer.antt =====
-- The answer of a table that falls back on its source:
-- crates/runtime/src/execution_plan/fallback_on_zero_results.rs with mod.rs.
use spiceai.Prelude.{
  Bool, true, some, List, [], ◌∷◌, ◌++◌, ◌&&◌, ◌≡◌, ◌≢◌, ◌⊎◌, inl, inr, refl, sym, ap, ◌∙◌, arith,
}
use spiceai.Prelude.Lists.{all, All}
use spiceai.Prelude.Tests.{if◌then◌else◌}
use spiceai.Prelude.Result.{Result, ok, err, bind-ok}
use mathlib.Core.List.{cons≢nil}
use spiceai.ExecutionPlan.{
  ExecutionPlan, Engine, Operator, reduce_from, joined_filters, filter_by, filter_plan, schema_cast,
}
use spiceai.ExecutionPlan.Fallback.{
  FallbackOnZeroResultsScanExec, Messages, fallback_stream, potentially_fallback_stream,
  filtered_input, execute,
}

module _ {A : Type 0} where
  unfoldable pub filter : (A → Bool) → List A → List A
  filter p [] = []
  filter p (x ∷ xs) = if p x then x ∷ filter p xs else filter p xs

  filter-true : (xs : List A) → filter (λ _. true) xs ≡ xs
  unfolding filter
  filter-true [] = refl
  filter-true (x ∷ xs) = ap (◌∷◌ x) (filter-true xs)

  filter-ext : (p q : A → Bool) → ((x : A) → p x ≡ q x) → (xs : List A) → filter p xs ≡ filter q xs
  unfolding filter
  filter-ext p q h [] = refl
  filter-ext p q h (x ∷ xs) = ground (arith, h x, filter-ext p q h xs)

  not_nil : (xs ys : List A) → xs ≢ [] → (xs ++ ys) ≢ []
  not_nil [] ys h e = h refl
  not_nil (x ∷ xs) ys h e = ground (arith, e)

module _ {Batch E : Type 0} where
  -- The stream yields no error.
  abbrev pub IsOk : Result E Batch → Type 0
  IsOk (ok batch) = Unit
  IsOk (err e) = ⊥

module _ {Batch Row E : Type 0} (rows : Batch → List Row) where
  abbrev pub HasRows : Result E Batch → Type 0
  HasRows (ok batch) = rows batch ≢ []
  HasRows (err e) = ⊥

  -- The rows of a stream.
  unfoldable pub rows_in : List (Result E Batch) → List Row
  rows_in [] = []
  rows_in (ok batch ∷ stream) = rows batch ++ rows_in stream
  rows_in (err e ∷ stream) = rows_in stream

module _ {Expr Row : Type 0} (matches : Expr → Row → Bool) where
  -- Every filter is true of the row.
  unfoldable pub matches_all : List Expr → Row → Bool
  matches_all filters row = all (λ f. matches f row) filters

  -- `And` is true of a row when both sides are.
  abbrev pub IsAnd : (Expr → Operator → Expr → Expr) → Type 0
  IsAnd binary_expr =
      (left right : Expr) (row : Row)
      → matches (binary_expr left Operator.and right) row ≡ (matches left row && matches right row)

module _ {Expr Row : Type 0} (matches : Expr → Row → Bool)
    (binary_expr : Expr → Operator → Expr → Expr) (is_and : IsAnd matches binary_expr) where
  reduce_from-matches_all :
      (left : Expr) (filters : List Expr) (row : Row)
      → matches (reduce_from binary_expr left filters) row
        ≡ matches_all matches (left ∷ filters) row
  unfolding reduce_from matches_all all
  reduce_from-matches_all left [] row = ground arith
  reduce_from-matches_all left (right ∷ filters) row = ground (
    arith,
    is_and left right row,
    reduce_from-matches_all (binary_expr left Operator.and right) filters row,
  )

module _ {Field Column Batch Expr Physical Frame Row E : Type 0} where
  -- What `FilterExec` promises: of a stream without an error it keeps the rows of which the planned
  -- expression is true, in batches that are not empty.
  abbrev pub IsFilter :
      Engine Field Column Batch Expr Physical Frame E
      → (Batch → List Row)
      → (Expr → Row → Bool)
      → Type 0
  IsFilter engine rows matches =
      (e : Expr) (frame : Frame) (physical : Physical) (input plan : ExecutionPlan Field Batch E)
      (stream : List (Result E Batch))
      → engine.create_physical_expr e frame ≡ ok physical
      → engine.filter_exec physical input ≡ ok plan
      → input.execute 0 ≡ ok stream
      → All IsOk stream
      → (out : List (Result E Batch)) × (plan.execute 0 ≡ ok out)
        × (rows_in rows out ≡ filter (matches e) (rows_in rows stream))
        × All (HasRows rows) out

module _ {Field Column Batch Expr Physical Frame Row E : Type 0}
    (engine : Engine Field Column Batch Expr Physical Frame E) (rows : Batch → List Row)
    (matches : Expr → Row → Bool) (is_and : IsAnd matches engine.binary_expr)
    (is_filter : IsFilter engine rows matches) (input : ExecutionPlan Field Batch E)
    (stream : List (Result E Batch)) (executes : input.execute 0 ≡ ok stream)
    (no_error : All IsOk stream) where
  filter_by-rows :
      (first : Expr) (filters : List Expr) (plan : ExecutionPlan Field Batch E)
      → filter_by engine (some (reduce_from engine.binary_expr first filters)) input ≡ ok plan
      → (out : List (Result E Batch)) × (plan.execute 0 ≡ ok out)
        × (rows_in rows out ≡ filter (matches_all matches (first ∷ filters)) (rows_in rows stream))
        × All (HasRows rows) out
  unfolding filter_by
  filter_by-rows first filters plan h =
      let (frame, _, hf) = bind-ok (engine.to_dfschema input.schema) _ plan h in
      let (physical, ep, hp) =
        bind-ok (engine.create_physical_expr (reduce_from engine.binary_expr first filters) frame) _
          plan hf in
      let (out, eo, er, has) =
        is_filter (reduce_from engine.binary_expr first filters) frame physical input plan stream ep
          hp executes no_error in
      (
        out,
        eo,
        er
            ∙ filter-ext (matches (reduce_from engine.binary_expr first filters))
                (matches_all matches (first ∷ filters))
                (reduce_from-matches_all matches engine.binary_expr is_and first filters)
                (rows_in rows stream),
        has,
      )

  filtered-rows :
      (filters : List Expr) (plan : ExecutionPlan Field Batch E)
      → filter_by engine (joined_filters engine.binary_expr filters) input ≡ ok plan
      → (out : List (Result E Batch)) × (plan.execute 0 ≡ ok out)
        × (rows_in rows out ≡ filter (matches_all matches filters) (rows_in rows stream))
        × ((All (HasRows rows) out) ⊎ (filters ≡ []))
  unfolding joined_filters filter_by matches_all all
  filtered-rows [] plan h =
      (stream, ground (arith, h, executes), sym (filter-true (rows_in rows stream)), inr refl)
  filtered-rows (first ∷ filters) plan h =
      let (out, eo, er, has) = filter_by-rows first filters plan h in (out, eo, er, inl has)

module _ {Batch Row E : Type 0} (rows : Batch → List Row) where
  rows_in-empty :
      (out : List (Result E Batch)) → All (HasRows rows) out → rows_in rows out ≡ [] → out ≡ []
  unfolding rows_in
  rows_in-empty [] has e = refl
  rows_in-empty (ok batch ∷ out) has e = absurd (not_nil (rows batch) (rows_in rows out) has.0 e)
  rows_in-empty (err e' ∷ out) has e = absurd has.0

module _ {Field Batch Expr Row E : Type 0} (messages : Messages E) (rows : Batch → List Row)
    (matches : Expr → Row → Bool) (self : FallbackOnZeroResultsScanExec Field Batch Expr E) where
  -- `out` is an answer for the rows of `stream`: those that all filters are true of, or what the
  -- source answers, when there are none of them.
  pub data IsAnswer (stream out : List (Result E Batch)) : Type 0 where
    from_input :
        rows_in rows out
          ≡ filter (matches_all matches self.fallback_scan_params.filters) (rows_in rows stream)
        → (rows_in rows out ≢ []) ⊎ (self.fallback_scan_params.filters ≡ [])
        → IsAnswer stream out
    from_source :
        filter (matches_all matches self.fallback_scan_params.filters) (rows_in rows stream) ≡ []
        → out ≡ fallback_stream messages self
        → IsAnswer stream out

  potentially_fallback_stream-IsAnswer :
      (stream out : List (Result E Batch))
      → rows_in rows out
        ≡ filter (matches_all matches self.fallback_scan_params.filters) (rows_in rows stream)
      → (All (HasRows rows) out) ⊎ (self.fallback_scan_params.filters ≡ [])
      → IsAnswer stream (potentially_fallback_stream messages self out)
  unfolding potentially_fallback_stream rows_in
  potentially_fallback_stream-IsAnswer stream [] er has = from_source (sym er) refl
  potentially_fallback_stream-IsAnswer stream (item ∷ out) er (inr none_given) =
      from_input er (inr none_given)
  potentially_fallback_stream-IsAnswer stream (item ∷ out) er (inl has) =
      from_input er (inl (λ e. cons≢nil (rows_in-empty rows (item ∷ out) has e)))

module _ {Field Column Batch Expr Physical Frame Row E : Type 0}
    (engine : Engine Field Column Batch Expr Physical Frame E) (messages : Messages E)
    (rows : Batch → List Row) (matches : Expr → Row → Bool)
    (is_and : IsAnd matches engine.binary_expr) (is_filter : IsFilter engine rows matches) where
  -- For an `And` that is true when both sides are, and a `FilterExec` that keeps exactly the rows of
  -- which its expression is true, in batches that are not empty: when the accelerated table, cast to its schema, yields a stream without an error, and its filters
  -- can be planned, the execution gives an answer: the rows of the accelerated table that all filters
  -- are true of, or, only if there are none, what the source answers. With filters, an answer
  -- of the accelerated table has a row.
  pub execute-IsAnswer :
      (self : FallbackOnZeroResultsScanExec Field Batch Expr E) (stream : List (Result E Batch))
      (plan : ExecutionPlan Field Batch E)
      → ExecutionPlan.execute
          (schema_cast engine.arrow engine.external self.input self.input.schema)
          0
        ≡ ok stream
      → All IsOk stream
      → filtered_input engine self ≡ ok plan
      → (out : List (Result E Batch)) × (execute engine messages self 0 ≡ ok out)
        × IsAnswer messages rows matches self stream out
  unfolding execute filtered_input filter_plan
  execute-IsAnswer self stream plan executes no_error h =
      let (out, eo, er, has) =
        filtered-rows engine rows matches is_and is_filter
          (schema_cast engine.arrow engine.external self.input self.input.schema) stream executes
          no_error self.fallback_scan_params.filters plan h in
      (
        potentially_fallback_stream messages self out,
        ground (arith, h, eo),
        potentially_fallback_stream-IsAnswer messages rows matches self stream out er has,
      )
