-- ===== src/Tests/Changes.antt =====
-- The theorems on captured changes at concrete inputs. A row is a number, and its key the last digit;
-- the accelerator is a function from keys.
use spiceai.Prelude.{
  ℕ, ◌%◌, true, false, ◌&&◌, Option, none, some, List, [], ◌∷◌, ◌≡◌, refl, sym, ap, ◌∙◌, inl, inr,
  arith,
}
use spiceai.Prelude.Lists.{length}
use spiceai.Prelude.Tests.{nat_beq, ltb, if◌then◌else◌, Bool-cases, Option-cases}
use spiceai.Prelude.Result.{Result, ok, err}
use spiceai.Prelude.Text.{Text, codes, ◌==◌}
use spiceai.Arrow.{DataType, Schema}
use spiceai.MemTable.{RecordBatch}
use spiceai.RefreshTask.{State, error, refreshing}
use spiceai.RefreshTask.Run.{last_status}
use spiceai.Changes.{
  Literal, int64, Equation, Change, Accelerator, column_with_name, is_key_type,
  get_primary_key_value, get_delete_where_expr, write_change,
}
use spiceai.Changes.Replay.{Keyed, IsKeyed, replay, write_change-replay}
use spiceai.Changes.Commits.{
  ChangeEnvelope, start_changes_stream, written, all_written, start_changes_stream-facts,
}

abbrev id_schema : Schema
id_schema = record { name = codes "id"; data_type = DataType.int64 } ∷ []

abbrev row : ℕ → RecordBatch ℕ
row r = record { schema = id_schema; rows = r ∷ [] }

abbrev key_of : RecordBatch ℕ → ℕ
key_of b = elim b.rows [ [] ↦ 0 | r ∷ _ ↦ r % 10 ]

abbrev Table : Type 0
Table = ℕ → Option (RecordBatch ℕ)

abbrev number : Literal → ℕ
number (int64 n) = n
number _ = 0

abbrev removed : List Equation → Table → Table
removed [] w k = w k
removed (e ∷ _) w k = if nat_beq k (number e.value) then none else w k

abbrev accelerator : Accelerator Table ℕ
accelerator = record {
  supports_delete = true;
  value = λ b i. some (int64 (key_of b));
  delete_from = λ w exprs. ok tt;
  execute_delete = λ w exprs. (ok tt, removed exprs w);
  insert_into = λ w b. if nat_beq (key_of b) 0 then err (codes "no key") else ok tt;
  execute_insert = λ w b. (ok tt, λ k. if nat_beq k (key_of b) then some b else w k);
}

abbrev keyed : Keyed Table ℕ ℕ
keyed = record { key_columns = codes "id" ∷ []; key_of = key_of; same = nat_beq; lookup = λ w. w }

deletes_lem :
    (w w' : Table) (b : RecordBatch ℕ) (exprs : List Equation) (k : ℕ)
    → get_delete_where_expr accelerator b (codes "id" ∷ []) ≡ ok exprs
    → accelerator.execute_delete w exprs ≡ (ok tt, w')
    → w' k ≡ (if nat_beq k (key_of b) then none else w k)
unfolding get_delete_where_expr get_primary_key_value
deletes_lem w w' b exprs k g h =
    let same_table : removed exprs w ≡ w' = ground (arith, h) in
    elim (Option-cases (column_with_name b.schema (codes "id"))) [
      | inl c ↦ absurd (ground (arith, g, c))
      | inr ((i, f), c) ↦ elim (Bool-cases (is_key_type f.data_type)) [
        | inr t ↦ absurd (ground (arith, g, c, t))
        | inl t ↦
            let is_exprs : record { key = codes "id"; value = int64 (key_of b) } ∷ [] ≡ exprs =
              ground (arith, g, c, t) in
            sym (ap (λ u. u k) same_table) ∙ ap (λ es. removed es w k) (sym is_exprs)
      ]
    ]

accelerator-IsKeyed : IsKeyed keyed accelerator
accelerator-IsKeyed = record {
  upserts = λ w w' b k h.
      let same_table : (λ k. if nat_beq k (key_of b) then some b else w k) ≡ w' =
        ground (arith, h) in
      sym (ap (λ u. u k) same_table);
  deletes = deletes_lem;
}

abbrev change : Text → ℕ → Change ℕ
change op r = record { op = op; primary_keys = codes "id" ∷ []; data_ = row r }

abbrev three : List (Change ℕ)
three = change (codes "c") 11 ∷ change (codes "u") 21 ∷ change (codes "d") 2 ∷ []

abbrev before : Table
before k = if nat_beq k 2 then some (row 12) else none

abbrev after : Table
after k =
    removed (record { key = codes "id"; value = int64 2 } ∷ [])
      (λ k. if nat_beq k 1 then some (row 21) else if nat_beq k 1 then some (row 11) else before k)
      k

write_change-replay_example : after ≡ replay keyed three before
unfolding write_change spiceai.Changes.write_rows spiceai.Changes.write_row
    spiceai.Changes.write_operation spiceai.Changes.operation ◌==◌ spiceai.Changes.write_upsert
    spiceai.Changes.debug_message spiceai.Changes.executed spiceai.Changes.write_delete
    spiceai.Changes.get_primary_key_log_fmt get_primary_key_value column_with_name is_key_type
    get_delete_where_expr
write_change-replay_example =
    write_change-replay keyed accelerator accelerator-IsKeyed false three before after
      (refl, (refl, (refl, tt))) refl

abbrev updates : List (Result Text (ChangeEnvelope ℕ))
updates =
    ok (record { change_committer = 1; change_batch = three })
    ∷ ok (record { change_committer = 2; change_batch = change (codes "c") 10 ∷ [] })
    ∷ ok (record { change_committer = 3; change_batch = change (codes "t") 1 ∷ [] })
    ∷ []

abbrev start : State Table
start = record { world = before; statuses = [] }

start_changes_stream-facts_example :
    ((start_changes_stream accelerator false true updates true start).committed
      ≡ written accelerator false true updates before)
    × ((start_changes_stream accelerator false true updates true start).ready_sent
        ≡ (if true && ltb 0 (length (written accelerator false true updates before)) then 1 else 0))
    × ((start_changes_stream accelerator false true updates true start).invalidations
        ≡ (if true then length (written accelerator false true updates before) else 0))
    × (last_status (start_changes_stream accelerator false true updates true start).task
        ≡ some (if all_written accelerator false true updates before then refreshing else error))
start_changes_stream-facts_example =
    start_changes_stream-facts accelerator false true updates true start
