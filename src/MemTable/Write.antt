-- ===== src/MemTable/Write.antt =====
-- What a write puts into a `MemTable`.
use native.Mathlib.Nat.{mod-lt}
use spiceai.Prelude.{
  ℕ, ◌+◌, ◌%◌, ◌<◌, Bool, some, List, [], ◌∷◌, ◌++◌, map, append-nil, ◌≡◌, refl, sym, ap, ◌∙◌,
  arith,
}
use spiceai.Prelude.Lists.{length}
use spiceai.Prelude.Tests.{if◌then◌else◌}
use spiceai.Prelude.Result.{Result, ok, err}
use spiceai.MemTable.{
  RecordBatch, Partitions, num_rows, empty_partitions, deal, write_targets, write_all,
}
use spiceai.MemTable.Count.{
  any_row, in_batches, total, push_at-total, total-empty_partitions, total-write_targets,
  in_rows-any, length-push_at, push_at-ne-none, length-empty_partitions, length-write_targets,
}

pub mod-in_range : (i n : ℕ) → 0 < n → i % n < n
mod-in_range i n h = grind (arith, mod-lt)

module _ {Row E : Type 0} (check : E → E) (n : ℕ) (pos : 0 < n) where
  abbrev oks : List (RecordBatch Row) → List (Result E (RecordBatch Row))
  oks = map ok

  oks_all : (bs : List (RecordBatch Row)) → oks bs ++ [] ≡ oks bs
  oks_all bs = append-nil (oks bs)

  -- Batches without an error are all dealt out, whatever has been dealt out before.
  deal-ok :
      (bs : List (RecordBatch Row)) (rest : List (Result E (RecordBatch Row)))
      (new : Partitions Row) (i row_count : ℕ)
      → length new ≡ n
      → i < n
      → (dealt : Partitions Row) × (j : ℕ) × (deal check n (oks bs ++ rest) new i row_count
          ≡ deal check n rest dealt j (row_count + in_batches any_row bs))
        × (length dealt ≡ n)
        × ((p : Row → Bool) → total p dealt ≡ total p new + in_batches p bs)
  unfolding deal in_batches num_rows
  deal-ok [] rest new i row_count l h =
      (new, i, ap (deal check n rest new i) (omega arith), l, λ p. omega arith)
  deal-ok (b ∷ bs) rest new i row_count l h =
      let (pushed, e) = push_at-ne-none new i b (omega arith) in
      let (dealt, j, d, ld, td) =
        deal-ok bs rest pushed ((i + 1) % n) (row_count + num_rows b)
          (length-push_at new i b pushed e ∙ l) (mod-in_range (i + 1) n pos) in
      (
        dealt,
        j,
        rw (e, deal) (d ∙ ap (deal check n rest dealt j) (omega (arith, in_rows-any b.rows))),
        ld,
        λ p. omega (arith, td p, push_at-total p new i b pushed e),
      )

module _ {Row E : Type 0} (check : E → E) (batches : Partitions Row) (bs : List (RecordBatch Row))
    (overwrite : Bool) (pos : 0 < length batches) where
  -- For a table with a partition: a stream without an error is written. The number of partitions
  -- stays; for each predicate, as many rows satisfy it as did in the stream, and on an append as
  -- many more as did in the table before; and the result is the number of rows of the stream.
  pub write_all-ok :
      (batches' : Partitions Row) × (write_all {E = E} check batches overwrite (map ok bs)
        ≡ some (ok (in_batches any_row bs), batches'))
      × (length batches' ≡ length batches)
      × ((p : Row → Bool)
          → total p batches' ≡ (if overwrite then 0 else total p batches) + in_batches p bs)
  unfolding write_all deal
  write_all-ok =
      let n = length batches in
      let start = empty_partitions n in
      let (dealt, j, d, l, t) =
        deal-ok {E = E} check n pos bs [] start 0 0 (length-empty_partitions Row n) pos in
      let dealt_all = ap (λ u. deal check n u start 0 0) (sym (oks_all check n pos bs)) ∙ d in
      (
        write_targets overwrite batches dealt,
        rw (dealt_all, write_all)
            (ap (λ u. some (ok u, write_targets overwrite batches dealt)) (omega arith)),
        length-write_targets overwrite batches dealt,
        λ p. omega (
          arith,
          t p,
          total-empty_partitions p n,
          total-write_targets p overwrite batches dealt l,
        ),
      )

  -- For a table with a partition: a stream that yields an error behind some batches changes
  -- nothing, and gives that error, checked and marked.
  pub write_all-err :
      (e : E) (rest : List (Result E (RecordBatch Row)))
      → write_all check batches overwrite (map ok bs ++ (err e ∷ rest))
        ≡ some (err (check e), batches)
  unfolding write_all deal
  write_all-err e rest =
      let n = length batches in
      let start = empty_partitions n in
      let (dealt, j, d, l, t) =
        deal-ok check n pos bs (err e ∷ rest) start 0 0 (length-empty_partitions Row n) pos in
      rw (d, write_all) refl
