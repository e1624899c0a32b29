-- ===== src/MemTable/Count.antt =====
-- How many rows of a table satisfy a predicate: for all predicates, this is the multiset of rows.
use spiceai.Prelude.{
  ℕ, zero, suc, ◌+◌, ◌<◌, Bool, true, false, some, List, [], ◌∷◌, ◌++◌, ◌≡◌, inl, inr, refl, arith,
}
use spiceai.Prelude.Lists.{length}
use spiceai.Prelude.Tests.{if◌then◌else◌, Option-cases}
use spiceai.MemTable.{RecordBatch, Partitions, push_at, empty_partitions, write_targets}

module _ {Row : Type 0} where
  unfoldable pub any_row : Row → Bool
  any_row r = true

module _ {Row : Type 0} (p : Row → Bool) where
  unfoldable pub in_rows : List Row → ℕ
  in_rows [] = 0
  in_rows (r ∷ rs) = (if p r then 1 else 0) + in_rows rs

  unfoldable pub in_batches : List (RecordBatch Row) → ℕ
  in_batches [] = 0
  in_batches (b ∷ bs) = in_rows b.rows + in_batches bs

  pub in_batches-append :
      (bs cs : List (RecordBatch Row)) → in_batches (bs ++ cs) ≡ in_batches bs + in_batches cs
  unfolding in_batches
  in_batches-append [] cs = omega arith
  in_batches-append (b ∷ bs) cs = omega (arith, in_batches-append bs cs)

  unfoldable pub total : Partitions Row → ℕ
  total [] = 0
  total (q ∷ qs) = in_batches q + total qs

  pub push_at-total :
      (qs : Partitions Row) (i : ℕ) (b : RecordBatch Row) (qs' : Partitions Row)
      → push_at qs i b ≡ some qs'
      → total qs' ≡ total qs + in_rows b.rows
  unfolding push_at total in_batches
  push_at-total [] i b qs' h = ground arith
  push_at-total (q ∷ qs) zero b qs' h = ground (arith, in_batches-append q (b ∷ []))
  push_at-total (q ∷ qs) (suc i) b qs' h = elim (Option-cases (push_at qs i b)) [
    | inl e ↦ ground arith
    | inr (rs, e) ↦ ground (arith, push_at-total qs i b rs e)
  ]

  pub total-empty_partitions : (n : ℕ) → total (empty_partitions n) ≡ 0
  unfolding empty_partitions total in_batches
  total-empty_partitions zero = refl
  total-empty_partitions (suc n) = omega (arith, total-empty_partitions n)

  pub total-write_targets :
      (overwrite : Bool) (targets new : Partitions Row)
      → length new ≡ length targets
      → total (write_targets overwrite targets new)
        ≡ (if overwrite then 0 else total targets) + total new
  unfolding write_targets total in_batches
  total-write_targets overwrite [] [] h = ground arith
  total-write_targets overwrite [] (q ∷ qs) h = absurd (omega arith)
  total-write_targets overwrite (t ∷ ts) [] h = absurd (omega arith)
  total-write_targets true (t ∷ ts) (q ∷ qs) h =
      omega (arith, total-write_targets true ts qs (omega arith))
  total-write_targets false (t ∷ ts) (q ∷ qs) h =
      omega (arith, total-write_targets false ts qs (omega arith), in_batches-append t q)

module _ {Row : Type 0} where
  pub in_rows-any : (rs : List Row) → in_rows any_row rs ≡ length rs
  unfolding in_rows any_row
  in_rows-any [] = refl
  in_rows-any (r ∷ rs) = omega (arith, in_rows-any rs)

  pub length-push_at :
      (qs : Partitions Row) (i : ℕ) (b : RecordBatch Row) (qs' : Partitions Row)
      → push_at qs i b ≡ some qs'
      → length qs' ≡ length qs
  unfolding push_at
  length-push_at [] i b qs' h = ground arith
  length-push_at (q ∷ qs) zero b qs' h = ground arith
  length-push_at (q ∷ qs) (suc i) b qs' h = elim (Option-cases (push_at qs i b)) [
    | inl e ↦ ground arith
    | inr (rs, e) ↦ ground (arith, length-push_at qs i b rs e)
  ]

  -- A push within bounds does not panic.
  pub push_at-ne-none :
      (qs : Partitions Row) (i : ℕ) (b : RecordBatch Row)
      → i < length qs
      → (qs' : Partitions Row) × (push_at qs i b ≡ some qs')
  unfolding push_at
  push_at-ne-none [] i b h = absurd (omega arith)
  push_at-ne-none (q ∷ qs) zero b h = ((q ++ b ∷ []) ∷ qs, refl)
  push_at-ne-none (q ∷ qs) (suc i) b h =
      let (qs', e) = push_at-ne-none qs i b (omega arith) in (q ∷ qs', rw e refl)

  pub length-write_targets :
      (overwrite : Bool) (targets new : Partitions Row)
      → length (write_targets overwrite targets new) ≡ length targets
  unfolding write_targets
  length-write_targets overwrite [] new = refl
  length-write_targets overwrite (t ∷ ts) [] = refl
  length-write_targets overwrite (t ∷ ts) (q ∷ qs) =
      omega (arith, length-write_targets overwrite ts qs)

pub length-empty_partitions : (Row : Type 0) (n : ℕ) → length (empty_partitions {Row = Row} n) ≡ n
unfolding empty_partitions
length-empty_partitions Row zero = refl
length-empty_partitions Row (suc n) = omega (arith, length-empty_partitions Row n)
