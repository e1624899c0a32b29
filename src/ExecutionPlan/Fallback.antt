-- ===== src/ExecutionPlan/Fallback.antt =====
-- crates/runtime/src/execution_plan/fallback_on_zero_results.rs, and `scan` of
-- crates/runtime/src/accelerated_table.rs.
--
-- The text of an error is kept as its parts. The metric, the log and the name in them are left out.
use spiceai.Prelude.{ℕ, not, List, [], ◌∷◌}
use spiceai.Prelude.Tests.{if◌then◌else◌, ltb, nat_beq}
use spiceai.Prelude.Result.{Result, ok, err, ◌>>=◌}
use spiceai.Acceleration.{ZeroResultsAction}
use spiceai.ExecutionPlan.{
  ExecutionPlan, TableScanParams, TableProvider, Engine, filter_plan, schema_cast,
}

-- `FallbackOnZeroResultsScanExec`
pub record FallbackOnZeroResultsScanExec (Field Batch Expr E : Type 0) : Type 0 where
  pub input : ExecutionPlan Field Batch E
  pub fallback_table_provider : TableProvider Field Batch Expr E
  pub fallback_scan_params : TableScanParams Expr

-- The two errors of `DataFusionError::Execution` that the code builds.
pub record Messages (E : Type 0) : Type 0 where
  -- "... only supports 1 partitions, but partition {partition} was requested"
  pub only_one_partition : ℕ → E
  -- "Error executing fallback plan: {e}"
  pub error_executing : E → E

module _ {Batch E : Type 0} (messages : Messages E) where
  unfoldable pub executed_or : Result E (List (Result E Batch)) → List (Result E Batch)
  executed_or (ok stream) = stream
  executed_or (err e) = err (messages.error_executing e) ∷ []

module _ {Field Batch E : Type 0} (messages : Messages E) where
  unfoldable pub scanned_or : Result E (ExecutionPlan Field Batch E) → List (Result E Batch)
  scanned_or (ok fallback_plan) = executed_or messages (fallback_plan.execute 0)
  scanned_or (err e) = err e ∷ []

module _ {Field Batch Expr E : Type 0} (messages : Messages E) where
  -- The arm of an input stream that yields nothing.
  unfoldable pub fallback_stream :
      FallbackOnZeroResultsScanExec Field Batch Expr E → List (Result E Batch)
  fallback_stream self =
      scanned_or messages (self.fallback_table_provider.scan self.fallback_scan_params)

  unfoldable pub potentially_fallback_stream :
      FallbackOnZeroResultsScanExec Field Batch Expr E
      → List (Result E Batch)
      → List (Result E Batch)
  potentially_fallback_stream self (input ∷ input_stream) = input ∷ input_stream
  potentially_fallback_stream self [] = fallback_stream self

module _ {Field Column Batch Expr Physical Frame E : Type 0}
    (engine : Engine Field Column Batch Expr Physical Frame E) where
  unfoldable pub new :
      ExecutionPlan Field Batch E
      → TableProvider Field Batch Expr E
      → TableScanParams Expr
      → FallbackOnZeroResultsScanExec Field Batch Expr E
  new input fallback_table_provider fallback_scan_params = record {
    input =
        if not (nat_beq input.partition_count 1)
        then engine.coalesce_partitions_exec input
        else input;
    fallback_table_provider = fallback_table_provider;
    fallback_scan_params = fallback_scan_params;
  }

module _ {Field Column Batch Expr Physical Frame E : Type 0}
    (engine : Engine Field Column Batch Expr Physical Frame E) where
  unfoldable pub filtered_input :
      FallbackOnZeroResultsScanExec Field Batch Expr E → Result E (ExecutionPlan Field Batch E)
  filtered_input self =
      filter_plan engine (schema_cast engine.arrow engine.external self.input self.input.schema)
        self.fallback_scan_params

module _ {Field Column Batch Expr Physical Frame E : Type 0}
    (engine : Engine Field Column Batch Expr Physical Frame E) (messages : Messages E) where
  unfoldable pub execute :
      FallbackOnZeroResultsScanExec Field Batch Expr E → ℕ → Result E (List (Result E Batch))
  execute self partition =
      if ltb 0 partition
      then err (messages.only_one_partition partition)
      else (filtered_input engine self >>= λ plan.
          (plan.execute 0 >>= λ input_stream.
          ok (potentially_fallback_stream messages self input_stream)))

  -- The plan that `FallbackOnZeroResultsScanExec` is.
  unfoldable pub plan_of :
      FallbackOnZeroResultsScanExec Field Batch Expr E → ExecutionPlan Field Batch E
  plan_of self = record { schema = self.input.schema; partition_count = 1; execute = execute self }

  unfoldable pub with_action :
      ZeroResultsAction
      → ExecutionPlan Field Batch E
      → TableProvider Field Batch Expr E
      → TableScanParams Expr
      → ExecutionPlan Field Batch E
  with_action ZeroResultsAction.return_empty input federated params = input
  with_action ZeroResultsAction.use_source input federated params =
      plan_of (new engine input federated params)

  -- `AcceleratedTable::scan`
  unfoldable pub scan :
      ZeroResultsAction
      → TableProvider Field Batch Expr E
      → TableProvider Field Batch Expr E
      → TableScanParams Expr
      → Result E (ExecutionPlan Field Batch E)
  scan zero_results_action accelerator federated params = accelerator.scan params >>= λ input. ok (
      schema_cast engine.arrow engine.external
        (with_action zero_results_action input federated params) accelerator.schema)
