-- ===== src/Tests/ExecutionPlan.antt =====
-- A table that falls back on its source, at concrete inputs. A batch is a list of numbers.
use spiceai.Prelude.{
  ℕ, Bool, true, false, none, List, [], ◌∷◌, ◌++◌, ◌&&◌, ◌≡◌, refl, sym, ap, ◌∙◌, arith,
}
use spiceai.Prelude.Lists.{length, All}
use spiceai.Prelude.Tests.{ltb}
use spiceai.Prelude.Result.{Result, ok, err, ◌>>=◌}
use spiceai.Prelude.Text.{Text, codes}
use spiceai.ArrowTools.Cast.{Arrow, try_cast_to}
use spiceai.ExecutionPlan.{
  ExecutionPlan, TableProvider, Engine, Operator, filter_plan, filter_by, joined_filters,
  reduce_from, schema_cast, cast_stream, external_err,
}
use spiceai.ExecutionPlan.Fallback.{
  FallbackOnZeroResultsScanExec, Messages, filtered_input, execute, new,
  potentially_fallback_stream, fallback_stream, scanned_or, executed_or,
}
use spiceai.ExecutionPlan.Answer.{
  IsOk, HasRows, rows_in, filter, IsAnd, IsFilter, IsAnswer, execute-IsAnswer,
}

data Condition : Type 0 where
  above : ℕ → Condition
  both : Condition → Condition → Condition

abbrev matches : Condition → ℕ → Bool
matches (above n) row = ltb n row
matches (both left right) row = matches left row && matches right row

abbrev binary_expr : Condition → Operator → Condition → Condition
binary_expr left Operator.and right = both left right
binary_expr left _ right = left

abbrev Stream : Type 0
Stream = List (Result Text (List ℕ))

abbrev Plan : Type 0
Plan = ExecutionPlan Text (List ℕ) Text

unfoldable push : List ℕ → Stream → Stream
push [] stream = stream
push (row ∷ batch) stream = ok (row ∷ batch) ∷ stream

unfoldable keep : Condition → Stream → Stream
keep c [] = []
keep c (err e ∷ stream) = err e ∷ []
keep c (ok batch ∷ stream) = push (filter (matches c) batch) (keep c stream)

abbrev arrow : Arrow Text ℕ (List ℕ) Text
arrow = record {
  name = λ field. field;
  field_with_name = λ _ _. none;
  is_nullable = λ _. false;
  field_contains = λ _ _. true;
  schema_contains = λ _ _. true;
  schema = λ _. codes "n" ∷ [];
  column_by_name = λ _ _. none;
  num_rows = length;
  with_schema = λ batch _. ok batch;
  cast = λ column _. ok column;
  new_null_array = λ _ n. n;
  try_new = λ _ _. err (codes "no columns");
}

abbrev engine : Engine Text ℕ (List ℕ) Condition Condition (List Text) Text
engine = record {
  arrow = arrow;
  external = λ _. codes "cast";
  binary_expr = binary_expr;
  to_dfschema = λ schema. ok schema;
  create_physical_expr = λ e _. ok e;
  filter_exec = λ c plan. ok (record plan { execute = λ n. plan.execute n >>= λ s. ok (keep c s) });
  coalesce_partitions_exec = λ plan. plan;
}

engine-IsAnd : IsAnd matches binary_expr
engine-IsAnd left right row = refl

filter-append : (p : ℕ → Bool) (xs ys : List ℕ) → filter p (xs ++ ys) ≡ filter p xs ++ filter p ys
unfolding filter
filter-append p [] ys = refl
filter-append p (x ∷ xs) ys = ground (arith, filter-append p xs ys)

rows_in-push :
    (batch : List ℕ) (stream : Stream)
    → rows_in (λ b. b) (push batch stream) ≡ batch ++ rows_in (λ b. b) stream
unfolding push rows_in
rows_in-push [] stream = refl
rows_in-push (row ∷ batch) stream = refl

push-HasRows :
    (batch : List ℕ) (stream : Stream)
    → All (HasRows (λ b. b)) stream
    → All (HasRows (λ b. b)) (push batch stream)
unfolding push
push-HasRows [] stream has = has
push-HasRows (row ∷ batch) stream has = ((λ e. ground (arith, e)), has)

keep-HasRows :
    (c : Condition) (stream : Stream) → All IsOk stream → All (HasRows (λ b. b)) (keep c stream)
unfolding keep
keep-HasRows c [] h = tt
keep-HasRows c (ok batch ∷ stream) h =
    push-HasRows (filter (matches c) batch) (keep c stream) (keep-HasRows c stream h.1)
keep-HasRows c (err e ∷ stream) h = absurd h.0

rows_in-keep :
    (c : Condition) (stream : Stream)
    → All IsOk stream
    → rows_in (λ b. b) (keep c stream) ≡ filter (matches c) (rows_in (λ b. b) stream)
unfolding keep rows_in filter
rows_in-keep c [] h = refl
rows_in-keep c (ok batch ∷ stream) h =
    rows_in-push (filter (matches c) batch) (keep c stream)
    ∙ ap (λ rs. filter (matches c) batch ++ rs) (rows_in-keep c stream h.1)
    ∙ sym (filter-append (matches c) batch (rows_in (λ b. b) stream))
rows_in-keep c (err e ∷ stream) h = absurd h.0

engine-IsFilter : IsFilter engine (λ b. b) matches
engine-IsFilter e frame physical input plan stream ep hp ex no_error = (
  keep e stream,
  ground (arith, ep, hp, ex),
  rows_in-keep e stream no_error,
  keep-HasRows e stream no_error,
)

abbrev plan_with : Stream → Plan
plan_with stream = record { schema = codes "n" ∷ []; partition_count = 1; execute = λ _. ok stream }

abbrev source : TableProvider Text (List ℕ) Condition Text
source = record { schema = codes "n" ∷ []; scan = λ _. ok (plan_with (ok (5 ∷ 6 ∷ []) ∷ [])) }

abbrev messages : Messages Text
messages = record { only_one_partition = λ _. codes "partition"; error_executing = λ e. e }

abbrev accelerated : Stream
accelerated = ok (1 ∷ 2 ∷ []) ∷ ok (7 ∷ 9 ∷ []) ∷ []

-- `new` on a table with the given conditions.
abbrev exec_with : List Condition → FallbackOnZeroResultsScanExec Text (List ℕ) Condition Text
exec_with filters =
    new engine (plan_with accelerated) source
      (record { projection = none; filters = filters; limit = none })

-- Some rows match, and they are the answer.
execute-input :
    execute engine messages (exec_with (above 1 ∷ above 5 ∷ [])) 0 ≡ ok (ok (7 ∷ 9 ∷ []) ∷ [])
unfolding execute filtered_input filter_plan filter_by joined_filters new schema_cast
    potentially_fallback_stream keep cast_stream external_err try_cast_to push filter reduce_from
execute-input = refl

-- No row matches, and the source answers.
execute-source :
    execute engine messages (exec_with (above 1 ∷ above 10 ∷ [])) 0 ≡ ok (ok (5 ∷ 6 ∷ []) ∷ [])
unfolding execute filtered_input filter_plan filter_by joined_filters new schema_cast
    potentially_fallback_stream keep cast_stream external_err try_cast_to push filter reduce_from
    fallback_stream scanned_or executed_or
execute-source = refl

-- Without filters an empty batch is an answer.
execute-empty_batch :
    execute engine messages
      (new engine
        (plan_with (ok [] ∷ []))
        source
        (record { projection = none; filters = []; limit = none }))
      0
    ≡ ok (ok [] ∷ [])
unfolding execute filtered_input filter_plan filter_by joined_filters new schema_cast
    potentially_fallback_stream cast_stream external_err try_cast_to
execute-empty_batch = refl

execute-IsAnswer_example :
    (out : Stream) × (execute engine messages (exec_with (above 1 ∷ above 10 ∷ [])) 0 ≡ ok out)
    × IsAnswer messages (λ b. b) matches (exec_with (above 1 ∷ above 10 ∷ [])) accelerated out
unfolding filtered_input filter_plan filter_by joined_filters new schema_cast cast_stream
    external_err try_cast_to reduce_from
execute-IsAnswer_example =
    execute-IsAnswer engine messages (λ b. b) matches engine-IsAnd engine-IsFilter
      (exec_with (above 1 ∷ above 10 ∷ [])) accelerated _ refl (tt, (tt, tt)) refl
