-- ===== src/ExecutionPlan.antt =====
-- crates/runtime/src/execution_plan (mod.rs, schema_cast.rs): `filter_plan` and `SchemaCastScanExec`.
--
-- A plan is what the code asks of `dyn ExecutionPlan`: its schema, its number of partitions and the
-- stream of a partition, as the list of what it yields. Display, ordering and execution mode are
-- left out.
pub mod Fallback
pub mod Answer
use spiceai.Prelude.{ℕ, Option, none, some, List, [], ◌∷◌, map}
use spiceai.Prelude.Result.{Result, ok, err, ◌>>=◌}
use spiceai.ArrowTools.Cast.{Arrow, try_cast_to, Error}

-- `dyn ExecutionPlan`
pub record ExecutionPlan (Field Batch E : Type 0) : Type 0 where
  pub schema : List Field
  pub partition_count : ℕ
  pub execute : ℕ → Result E (List (Result E Batch))

-- `TableScanParams`. The session, which does not change, is part of the query engine.
pub record TableScanParams (Expr : Type 0) : Type 0 where
  pub projection : Option (List ℕ)
  pub filters : List Expr
  pub limit : Option ℕ

-- `dyn TableProvider`
pub record TableProvider (Field Batch Expr E : Type 0) : Type 0 where
  pub schema : List Field
  pub scan : TableScanParams Expr → Result E (ExecutionPlan Field Batch E)

-- `Operator` of DataFusion, as far as it compares and connects.
pub data Operator : Type 0 where
  eq not_eq lt lt_eq gt gt_eq and or : Operator

-- The query engine: expressions with an operator, the planning of expressions, and its plans on top of another.
pub record Engine (Field Column Batch Expr Physical Frame E : Type 0) : Type 0 where
  pub arrow : Arrow Field Column Batch E
  -- `DataFusionError::External`
  pub external : Error E → E
  -- `Expr::BinaryExpr`
  pub binary_expr : Expr → Operator → Expr → Expr
  pub to_dfschema : List Field → Result E Frame
  pub create_physical_expr : Expr → Frame → Result E Physical
  pub filter_exec : Physical → ExecutionPlan Field Batch E → Result E (ExecutionPlan Field Batch E)
  pub coalesce_partitions_exec : ExecutionPlan Field Batch E → ExecutionPlan Field Batch E

module _ {Expr : Type 0} (binary_expr : Expr → Operator → Expr → Expr) where
  -- The rest of `reduce`, from what is joined so far.
  unfoldable pub reduce_from : Expr → List Expr → Expr
  reduce_from left [] = left
  reduce_from left (right ∷ filters) = reduce_from (binary_expr left Operator.and right) filters

  unfoldable pub joined_filters : List Expr → Option Expr
  joined_filters [] = none
  joined_filters (first ∷ filters) = some (reduce_from first filters)

module _ {Field Column Batch Expr Physical Frame E : Type 0}
    (engine : Engine Field Column Batch Expr Physical Frame E) where
  unfoldable pub filter_by :
      Option Expr → ExecutionPlan Field Batch E → Result E (ExecutionPlan Field Batch E)
  filter_by none input = ok input
  filter_by (some joined) input = engine.to_dfschema input.schema >>= λ input_dfschema.
      (engine.create_physical_expr joined input_dfschema >>= λ physical_expr.
      engine.filter_exec physical_expr input)

  unfoldable pub filter_plan :
      ExecutionPlan Field Batch E → TableScanParams Expr → Result E (ExecutionPlan Field Batch E)
  filter_plan input scan_params =
      filter_by (joined_filters engine.binary_expr scan_params.filters) input

module _ {Field Column Batch E : Type 0} (arrow : Arrow Field Column Batch E) where
  unfoldable pub field_or : Field → Option Field → Field
  field_or field none = field
  field_or field (some other) = other

  -- `SchemaCastScanExec::schema`
  unfoldable pub cast_schema : List Field → List Field → List Field
  cast_schema input_fields schema =
      map (λ field. field_or field (arrow.field_with_name schema (arrow.name field))) input_fields

module _ {Field Column Batch E : Type 0} (arrow : Arrow Field Column Batch E)
    (external : Error E → E) where
  unfoldable pub external_err : Result (Error E) Batch → Result E Batch
  external_err (ok batch) = ok batch
  external_err (err e) = err (external e)

  -- The stream of `SchemaCastScanExec`: `batch?` passes an error on and ends the stream, and a batch
  -- that cannot be cast does not end it.
  unfoldable pub cast_stream : List Field → List (Result E Batch) → List (Result E Batch)
  cast_stream schema [] = []
  cast_stream schema (err e ∷ stream) = err e ∷ []
  cast_stream schema (ok batch ∷ stream) =
      external_err (try_cast_to arrow batch schema) ∷ cast_stream schema stream

  -- `SchemaCastScanExec::new`, as the plan that it is.
  unfoldable pub schema_cast :
      ExecutionPlan Field Batch E → List Field → ExecutionPlan Field Batch E
  schema_cast input schema = record {
    schema = cast_schema arrow input.schema schema;
    partition_count = input.partition_count;
    execute = λ partition. input.execute partition >>= λ stream.
        ok (cast_stream (cast_schema arrow input.schema schema) stream);
  }

module _ {Field Column Batch Expr Physical Frame E : Type 0}
    (engine : Engine Field Column Batch Expr Physical Frame E) where
  -- `EnsureSchema`, as the table that it is.
  unfoldable pub ensure_schema : TableProvider Field Batch Expr E → TableProvider Field Batch Expr E
  ensure_schema input = record {
    schema = input.schema;
    scan = λ params. input.scan params >>= λ plan.
        ok (schema_cast engine.arrow engine.external plan input.schema);
  }
