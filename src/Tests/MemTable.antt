-- ===== src/Tests/MemTable.antt =====
-- The theorems on MemTable at concrete inputs: rows are numbers, and a filter is a number that
-- the rows to delete are equal to; the row 0 is NULL to all filters.
use spiceai.Prelude.{
  ℕ, zero, suc, ◌+◌, Bool, true, false, not, Option, none, some, List, [], ◌∷◌, map, ◌≡◌, refl,
  arith,
}
use spiceai.Prelude.Lists.{length, all}
use spiceai.Prelude.Tests.{nat_beq, if◌then◌else◌}
use spiceai.Prelude.Result.{ok, err}
use spiceai.Prelude.Text.{Text, codes}
use spiceai.Arrow.{Schema}
use spiceai.MemTable.{RecordBatch, Partitions, MemTable, contains_all, write_all}
use spiceai.MemTable.Count.{any_row, in_batches, total}
use spiceai.MemTable.Deletion.{Engine, IsSound, delete_from}
use spiceai.MemTable.Write.{write_all-ok}
use spiceai.MemTable.Delete.{stays, both, nil, cons, delete_from-rows}

abbrev batch : List ℕ → RecordBatch ℕ
batch rows = record { schema = []; rows = rows }

abbrev two : Partitions ℕ
two = (batch (1 ∷ 2 ∷ []) ∷ []) ∷ (batch (3 ∷ 0 ∷ []) ∷ []) ∷ []

abbrev three_batches : List (RecordBatch ℕ)
three_batches = batch (4 ∷ []) ∷ batch (5 ∷ 6 ∷ []) ∷ batch [] ∷ []

write_all-ok_example :
    (batches' : Partitions ℕ) × (write_all {E = Text} (λ e. e) two true (map ok three_batches)
      ≡ some (ok (in_batches any_row three_batches), batches'))
    × (length batches' ≡ length two)
    × ((p : ℕ → Bool)
        → total p batches' ≡ (if true then 0 else total p two) + in_batches p three_batches)
write_all-ok_example = write_all-ok (λ e. e) two three_batches true (omega arith)

abbrev value : ℕ → ℕ → Option Bool
value filter zero = none
value filter (suc row) = some (nat_beq (suc row) filter)

abbrev engine : Engine ℕ ℕ Text
engine = record {
  plan = λ schema filter. ok (value filter);
  count = λ ps. ok (total any_row ps);
  collect_partitioned = ok;
}

abbrev failing : Engine ℕ ℕ Text
failing = record engine { collect_partitioned = λ ps. err (codes "out of memory") }

engine-IsSound : IsSound engine
engine-IsSound = record { counts = λ ps. refl; collects = λ ps. (ps, refl, λ p. refl) }

abbrev table : MemTable ℕ
table = record { schema = []; batches = two }

abbrev contains : Schema → Schema → Bool
contains a b = true

abbrev filters : List ℕ
filters = 1 ∷ 3 ∷ []

abbrev values : List (ℕ → Option Bool)
values = value 1 ∷ value 3 ∷ []

delete_from-rows_example :
    (self' : MemTable ℕ) × (delete_from engine contains table filters
      ≡ some (ok (total (λ r. not (stays values r)) two), self'))
    × ((p : ℕ → Bool) → total p self'.batches ≡ total (both (stays values) p) two)
unfolding contains_all all
delete_from-rows_example =
    delete_from-rows engine engine-IsSound contains table filters values (omega arith) refl
      (cons refl (cons refl nil))

-- Tests of schemas that let every batch in, and find none contained.
abbrev same_names : Schema → Schema → Bool
same_names s t = true

abbrev contains_none : Schema → Schema → Bool
contains_none s t = false
