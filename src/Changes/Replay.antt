-- ===== src/Changes/Replay.antt =====
-- What captured changes do to a table with a key: crates/runtime/src/accelerated_table/refresh_task/
-- changes.rs refines the replay of the changes on a map from keys to rows.
use spiceai.Prelude.{Bool, Option, none, some, List, [], ◌∷◌, ◌≡◌, inl, inr, ap, subst, ◌∙◌, arith}
use spiceai.Prelude.Lists.{All}
use spiceai.Prelude.Tests.{if◌then◌else◌, Bool-cases}
use spiceai.Prelude.Text.{Text}
use spiceai.Prelude.Result.{Result, ok, err, Result-cases}
use spiceai.MemTable.{RecordBatch}
use spiceai.Changes.{
  ChangeOperation, create, update, delete, read, truncate, unknown, operation, Change, Equation,
  Accelerator, get_delete_where_expr, get_primary_key_log_fmt, executed, write_delete,
  debug_message, write_upsert, write_operation, write_row, write_rows, write_change,
}

-- The abstract table.
abbrev pub Store : Type 0 → Type 0 → Type 0
Store Key Row = Key → Option (RecordBatch Row)

-- The keys of a table's rows.
pub record Keyed (World Row Key : Type 0) : Type 0 where
  pub key_columns : List Text
  pub key_of : RecordBatch Row → Key
  pub same : Key → Key → Bool
  pub lookup : World → Store Key Row

module _ {World Row Key : Type 0} (keyed : Keyed World Row Key) where
  -- What an operation means.
  unfoldable pub apply : ChangeOperation → RecordBatch Row → Store Key Row → Store Key Row
  apply create data_ store k = if keyed.same k (keyed.key_of data_) then some data_ else store k
  apply update data_ store k = if keyed.same k (keyed.key_of data_) then some data_ else store k
  apply read data_ store k = if keyed.same k (keyed.key_of data_) then some data_ else store k
  apply delete data_ store k = if keyed.same k (keyed.key_of data_) then none else store k
  apply truncate data_ store k = store k
  apply (unknown _) data_ store k = store k

  unfoldable pub replay : List (Change Row) → Store Key Row → Store Key Row
  replay [] store = store
  replay (change ∷ changes) store = replay changes (apply (operation change.op) change.data_ store)

  -- The accelerator keeps one row for a key: an insertion replaces the row of its key, and a deletion by
  -- the equations for the key columns of a row removes the row of that key.
  pub record IsKeyed (accelerator : Accelerator World Row) : Type 0 where
    pub upserts :
        (w w' : World) (data_ : RecordBatch Row) (k : Key)
        → accelerator.execute_insert w data_ ≡ (ok tt, w')
        → keyed.lookup w' k
          ≡ (if keyed.same k (keyed.key_of data_) then some data_ else keyed.lookup w k)
    pub deletes :
        (w w' : World) (data_ : RecordBatch Row) (exprs : List Equation) (k : Key)
        → get_delete_where_expr accelerator data_ keyed.key_columns ≡ ok exprs
        → accelerator.execute_delete w exprs ≡ (ok tt, w')
        → keyed.lookup w' k ≡ (if keyed.same k (keyed.key_of data_) then none else keyed.lookup w k)

module _ {World Row : Type 0} (accelerator : Accelerator World Row) where
  executed-ok :
      (p : Result Text (Unit {0}) × World) (w' : World)
      → executed accelerator p ≡ (ok tt, w')
      → p ≡ (ok tt, w')
  unfolding executed
  executed-ok (ok tt, w) w' h = ground (arith, h)
  executed-ok (err e, w) w' h = absurd (ground (arith, h))

  write_delete-ok :
      (change : Change Row) (w w' : World)
      → write_delete accelerator change w ≡ (ok tt, w')
      → (exprs : List Equation) × (get_delete_where_expr accelerator change.data_
            change.primary_keys
          ≡ ok exprs)
        × (accelerator.execute_delete w exprs ≡ (ok tt, w'))
  unfolding write_delete
  write_delete-ok change w w' h =
      elim (Result-cases (get_primary_key_log_fmt accelerator change.data_ change.primary_keys)) [
        | inr (e, a) ↦ absurd (ground (arith, h, a))
        | inl (u, a) ↦
            elim (Result-cases
              (get_delete_where_expr accelerator change.data_ change.primary_keys)) [
                | inr (e, b) ↦ absurd (ground (arith, h, a, b))
                | inl (exprs, b) ↦ elim (Result-cases (accelerator.delete_from w exprs)) [
                  | inr (e, c) ↦ absurd (ground (arith, h, a, b, c))
                  | inl (v, c) ↦ (
                    exprs,
                    b,
                    executed-ok (accelerator.execute_delete w exprs) w'
                        (ground (arith, h, a, b, c)),
                  )
                ]
              ]
      ]

  write_upsert-ok :
      (debug : Bool) (change : Change Row) (w w' : World)
      → write_upsert accelerator debug change w ≡ (ok tt, w')
      → accelerator.execute_insert w change.data_ ≡ (ok tt, w')
  unfolding write_upsert
  write_upsert-ok debug change w w' h =
      elim (Result-cases (debug_message accelerator debug change)) [
        | inr (e, a) ↦ absurd (ground (arith, h, a))
        | inl (u, a) ↦ elim (Result-cases (accelerator.insert_into w change.data_)) [
          | inr (e, c) ↦ absurd (ground (arith, h, a, c))
          | inl (v, c) ↦
              executed-ok (accelerator.execute_insert w change.data_) w' (ground (arith, h, a, c))
        ]
      ]

module _ {World Row Key : Type 0} (keyed : Keyed World Row Key)
    (accelerator : Accelerator World Row) (is_keyed : IsKeyed keyed accelerator)
    (debug : Bool) where
  write_operation-apply :
      (op : ChangeOperation) (change : Change Row) (w w' : World)
      → change.primary_keys ≡ keyed.key_columns
      → write_operation accelerator op debug change w ≡ (ok tt, w')
      → keyed.lookup w' ≡ apply keyed op change.data_ (keyed.lookup w)
  unfolding write_operation apply
  write_operation-apply create change w w' p h i k =
      is_keyed.upserts w w' change.data_ k (write_upsert-ok accelerator debug change w w' h) i
  write_operation-apply update change w w' p h i k =
      is_keyed.upserts w w' change.data_ k (write_upsert-ok accelerator debug change w w' h) i
  write_operation-apply read change w w' p h i k =
      is_keyed.upserts w w' change.data_ k (write_upsert-ok accelerator debug change w w' h) i
  write_operation-apply delete change w w' p h i k =
      let (exprs, e, d) = write_delete-ok accelerator change w w' h in
      is_keyed.deletes w w' change.data_ exprs k
        (subst (λ keys. get_delete_where_expr accelerator change.data_ keys ≡ ok exprs) p e) d i
  write_operation-apply truncate change w w' p h i k =
      let is_same : w' ≡ w = ground (arith, h) in keyed.lookup (is_same i) k
  write_operation-apply (unknown _) change w w' p h i k =
      let is_same : w' ≡ w = ground (arith, h) in keyed.lookup (is_same i) k

  write_rows-replay :
      (changes : List (Change Row)) (w w' : World)
      → All (λ change. change.primary_keys ≡ keyed.key_columns) changes
      → write_rows accelerator debug changes w ≡ (ok tt, w')
      → keyed.lookup w' ≡ replay keyed changes (keyed.lookup w)
  unfolding write_rows replay write_row
  write_rows-replay [] w w' all h =
      let is_same : w' ≡ w = ground (arith, h) in ap keyed.lookup is_same
  write_rows-replay (change ∷ changes) w w' all h =
      let p = write_operation accelerator (operation change.op) debug change w in
      elim (Result-cases p.0) [
        | inr (e, a) ↦ absurd (ground (arith, h, a))
        | inl (u, a) ↦
            write_rows-replay changes p.1 w' all.1 (ground (arith, h, a))
            ∙ ap (replay keyed changes)
                (write_operation-apply (operation change.op) change w p.1 all.0 (λ i. (a i, p.1)))
      ]

  -- For an accelerator that keeps one row for a key, and changes that carry its key columns: when a batch
  -- of changes is written without an error, the table is, as a map from keys to rows, what the replay of
  -- the changes in their order makes of the table before. A truncation and an unknown operation leave
  -- it as it is.
  pub write_change-replay :
      (changes : List (Change Row)) (w w' : World)
      → All (λ change. change.primary_keys ≡ keyed.key_columns) changes
      → write_change accelerator debug changes w ≡ (ok tt, w')
      → keyed.lookup w' ≡ replay keyed changes (keyed.lookup w)
  unfolding write_change
  write_change-replay changes w w' all h = elim (Bool-cases accelerator.supports_delete) [
    | inl e ↦ write_rows-replay changes w w' all (ground (arith, h, e))
    | inr e ↦ absurd (ground (arith, h, e))
  ]
