-- ===== src/RefreshTask/Records.antt =====
-- crates/runtime/src/accelerated_table/refresh_task.rs: `filter_records`, which leaves the rows out
-- of an update that the accelerator has.
--
-- `column` is a row's value in the column of an index, and `make_comparator` the comparator of the
-- `arrow` crates on rows of the given columns, of which the code asks whether two rows are equal.
-- Slots and comparators that the libraries refuse are their errors.
use spiceai.Prelude.{
  ℕ, zero, suc, Bool, true, false, not, ◌||◌, Option, none, some, List, [], ◌∷◌, map, ◌≡◌, inl, inr,
  subst, refl, sym, ◌∙◌, arith,
}
use spiceai.Prelude.Lists.{any}
use spiceai.Prelude.Tests.{if◌then◌else◌, Option-cases}
use spiceai.Prelude.Text.{Text, ◌==◌}
use spiceai.Arrow.{Schema}
use spiceai.MemTable.{RecordBatch}

-- `index_of`
unfoldable pub index_of : Schema → Text → Option ℕ
index_of [] name = none
index_of (f ∷ fs) name =
    let rest = index_of fs name in
    if f.name == name then some zero else elim rest [ none ↦ none | some i ↦ some (suc i) ]

-- The columns of a struct array: for each field of the filter schema the column of its name.
unfoldable pub columns : Schema → Schema → Option (List ℕ)
columns schema [] = some []
columns schema (field ∷ fields) =
    let rest = columns schema fields in
    elim (index_of schema field.name) [
      | none ↦ none
      | some i ↦ elim rest [ none ↦ none | some is ↦ some (i ∷ is) ]
    ]

-- A row of a struct array.
unfoldable pub struct_row : {Row Cell : Type 0} → (ℕ → Row → Cell) → List ℕ → Row → List Cell
struct_row column is r = map (λ i. column i r) is

module _ {Row Cell : Type 0} (column : ℕ → Row → Cell)
    (make_comparator : Schema → Option (List Cell → List Cell → Bool)) where
  -- The loop over the existing batches: for each its rows and the comparator.
  unfoldable pub comparators :
      Schema
      → List (RecordBatch Row)
      → Option (List (List (List Cell) × (List Cell → List Cell → Bool)))
  comparators filter_schema [] = some []
  comparators filter_schema (existing ∷ batches) =
      let rest = comparators filter_schema batches in
      elim (columns existing.schema filter_schema) [
        | none ↦ none
        | some is ↦ elim (make_comparator filter_schema) [
          | none ↦ none
          | some equal ↦ elim rest [
            | none ↦ none
            | some cs ↦ some ((map (struct_row column is) existing.rows, equal) ∷ cs)
          ]
        ]
      ]

-- The loop over the comparators for one row: `break` at the first batch with an equal row.
unfoldable pub not_matched :
    {Cell : Type 0} → List Cell → List (List (List Cell) × (List Cell → List Cell → Bool)) → Bool
not_matched row [] = true
not_matched row ((rows, equal) ∷ cs) = if any (equal row) rows then false else not_matched row cs

-- `filter_record_batch`
unfoldable pub filter_rows : {Row : Type 0} → (Row → Bool) → List Row → List Row
filter_rows p [] = []
filter_rows p (r ∷ rs) = let rest = filter_rows p rs in if p r then r ∷ rest else rest

module _ {Row Cell : Type 0} (column : ℕ → Row → Cell)
    (make_comparator : Schema → Option (List Cell → List Cell → Bool)) where
  -- `none` is `FailedToFilterUpdates`.
  unfoldable pub filter_records :
      RecordBatch Row → List (RecordBatch Row) → Schema → Option (RecordBatch Row)
  filter_records update existing_records filter_schema =
      elim (columns update.schema filter_schema) [
        | none ↦ none
        | some is ↦ elim (comparators column make_comparator filter_schema existing_records) [
          | none ↦ none
          | some cs ↦ some (record update {
            rows = filter_rows (λ r. not_matched (struct_row column is r) cs) update.rows;
          })
        ]
      ]

-- A row is equal to some row that exists, by the comparator that is made for the filter schema.
unfoldable pub exists :
    {Row Cell : Type 0}
    → (ℕ → Row → Cell)
    → (List Cell → List Cell → Bool)
    → Schema
    → List (RecordBatch Row)
    → List Cell
    → Bool
exists column equal filter_schema [] row = false
exists column equal filter_schema (b ∷ batches) row =
    elim (columns b.schema filter_schema) [
      | none ↦ false
      | some is ↦ any (λ r. equal row (struct_row column is r)) b.rows
    ]
    || exists column equal filter_schema batches row

any-map :
    {A B : Type 0} (p : B → Bool) (f : A → B) (xs : List A)
    → any p (map f xs) ≡ any (λ x. p (f x)) xs
unfolding any
any-map p f [] = refl
any-map p f (x ∷ xs) = ground (arith, any-map p f xs)

module _ {Row Cell : Type 0} (column : ℕ → Row → Cell)
    (make_comparator : Schema → Option (List Cell → List Cell → Bool))
    (equal : List Cell → List Cell → Bool) (filter_schema : Schema)
    (made : make_comparator filter_schema ≡ some equal) where
  not_matched-exists :
      (batches : List (RecordBatch Row))
      (cs : List (List (List Cell) × (List Cell → List Cell → Bool)))
      → comparators column make_comparator filter_schema batches ≡ some cs
      → (row : List Cell) → not_matched row cs ≡ not (exists column equal filter_schema batches row)
  unfolding comparators not_matched exists
  not_matched-exists [] cs h row = ground (arith, h)
  not_matched-exists (b ∷ batches) cs h row = elim (Option-cases (columns b.schema filter_schema)) [
    | inl c ↦ absurd (ground (arith, h, c))
    | inr (is, c) ↦ elim (Option-cases (comparators column make_comparator filter_schema batches)) [
      | inl d ↦ absurd (ground (arith, h, c, made, d))
      | inr (ds, d) ↦
          let is_cs : (map (struct_row column is) b.rows, equal) ∷ ds ≡ cs =
            ground (arith, h, c, made, d) in
          subst (λ u. not_matched row u ≡ not (exists column equal filter_schema (b ∷ batches) row))
            is_cs
            (ground (
              arith,
              c,
              not_matched-exists batches ds d row,
              any-map (equal row) (struct_row column is) b.rows,
            ))
    ]
  ]

  -- For a comparator that can be made: what `filter_records` gives, when it succeeds, is the update
  -- with exactly those of its rows, in their order, that are equal to no row of the existing batches in
  -- the columns of the filter schema.
  pub filter_records-exists :
      (update filtered : RecordBatch Row) (existing_records : List (RecordBatch Row))
      → filter_records column make_comparator update existing_records filter_schema ≡ some filtered
      → (is : List ℕ) × (columns update.schema filter_schema ≡ some is)
        × (filtered ≡ record update {
          rows =
              filter_rows
                (λ r.
                  not (exists column equal filter_schema existing_records (struct_row column is r)))
                update.rows;
        })
  unfolding filter_records
  filter_records-exists update filtered existing_records h =
      elim (Option-cases (columns update.schema filter_schema)) [
        | inl c ↦ absurd (ground (arith, h, c))
        | inr (is, c) ↦
            elim (Option-cases
              (comparators column make_comparator filter_schema existing_records)) [
                | inl d ↦ absurd (ground (arith, h, c, d))
                | inr (cs, d) ↦
                    let is_filtered : record update {
                      rows = filter_rows (λ r. not_matched (struct_row column is r) cs) update.rows;
                    }
                        ≡ filtered =
                      ground (arith, h, c, d) in
                    (
                      is,
                      c,
                      sym is_filtered ∙ (λ i. record update {
                        rows =
                            filter_rows
                              (λ r.
                                not_matched-exists existing_records cs d (struct_row column is r) i)
                              update.rows;
                      }),
                    )
              ]
      ]
