-- ===== src/Acceleration/Constraints/Columns.antt =====
-- What the validation of the indexes and the constraints are about.
use spiceai.Prelude.{
  ◌≡◌, ◌≢◌, inl, inr, refl, sym, ap, ◌∙◌, Option, none, some, List, [], ◌∷◌, ◌++◌, map, arith,
}
use spiceai.Prelude.Lists.{All, Any, here, there}
use spiceai.Prelude.Tests.{Option-cases}
use spiceai.Prelude.Text.{Text}
use spiceai.Prelude.Result.{Result, ok, err, Result-cases}
use spiceai.Arrow.{Schema, column_with_name}
use spiceai.Acceleration.{IndexType, Acceleration}
use spiceai.Acceleration.OnConflict.{unique_columns, key_columns, on_conflict_targets}
use spiceai.Acceleration.Constraints.{
  IndexError, index_column_not_found, TableConstraint, unique_key, primary_key, valid_columns,
  validate_columns, validate_all, validate_indexes, index_constraints, key_constraints,
  table_constraints,
}

-- The names that a constraint is about.
unfoldable pub constrained : TableConstraint → List Text
constrained (unique_key names) = names
constrained (primary_key names) = names

module _ (flattened : Schema → List Text) (schema : Schema) where
  validate_columns-ok :
      (cs : List Text)
      → validate_columns flattened schema cs ≡ ok tt
      → All (λ (c : Text). column_with_name schema c ≢ none) cs
  unfolding validate_columns
  validate_columns-ok [] h = tt
  validate_columns-ok (c ∷ cs) h = (λ n. ground arith, validate_columns-ok cs (ground arith))

  validate_columns-err :
      (cs : List Text) (e : IndexError)
      → validate_columns flattened schema cs ≡ err e
      → Any
          (λ (c : Text).
            (column_with_name schema c ≡ none)
            × (e ≡ index_column_not_found c (valid_columns flattened schema)))
          cs
  unfolding validate_columns
  validate_columns-err [] e h = absurd (ground arith)
  validate_columns-err (c ∷ cs) e h = elim (Option-cases (column_with_name schema c)) [
    | inl n ↦ here (n, ground arith)
    | inr (f, n) ↦ there (validate_columns-err cs e (ground arith))
  ]

module _ {Column : Type 0} (columns : Column → List Text) (self : Acceleration Column) where
  index_constraints-names :
      (indexes : List (Column × IndexType))
      → map constrained (index_constraints columns indexes) ≡ map columns (unique_columns indexes)
  unfolding index_constraints unique_columns constrained
  index_constraints-names [] = refl
  index_constraints-names ((c, IndexType.enabled) ∷ indexes) = index_constraints-names indexes
  index_constraints-names ((c, IndexType.unique) ∷ indexes) =
      ap (◌∷◌ (columns c)) (index_constraints-names indexes)

  key_constraints-names :
      (key : Option Column)
      → map constrained (key_constraints columns key) ≡ map columns (key_columns key)
  unfolding key_constraints key_columns constrained
  key_constraints-names none = refl
  key_constraints-names (some key) = refl

  map-append : {A B : Type 0} (f : A → B) (xs ys : List A) → map f (xs ++ ys) ≡ map f xs ++ map f ys
  map-append f [] ys = refl
  map-append f (x ∷ xs) ys = ap (◌∷◌ (f x)) (map-append f xs ys)

  constraints-names :
      map constrained
        (index_constraints columns self.indexes ++ key_constraints columns self.primary_key)
      ≡ map columns (on_conflict_targets self)
  unfolding on_conflict_targets
  constraints-names =
      map-append constrained (index_constraints columns self.indexes)
        (key_constraints columns self.primary_key)
      ∙ (rw (index_constraints-names self.indexes, key_constraints-names self.primary_key)
          (sym (map-append columns (unique_columns self.indexes) (key_columns self.primary_key))))

  -- The constraints of a table are those that are built from the unique indexes and the primary
  -- key: their columns are those of the targets that a conflict may name, in the same order.
  pub table_constraints-names :
      {E Constraints : Type 0} (build : List TableConstraint → Schema → Result E Constraints)
      → (schema : Schema) (r : Constraints)
      → table_constraints columns build self schema ≡ ok (some r)
      → (cs : List TableConstraint) × (build cs schema ≡ ok r)
        × (map constrained cs ≡ map columns (on_conflict_targets self))
  unfolding table_constraints
  table_constraints-names build schema r h = (
    index_constraints columns self.indexes ++ key_constraints columns self.primary_key,
    ground arith,
    constraints-names,
  )

module _ {Column : Type 0} (columns : Column → List Text) (flattened : Schema → List Text)
    (schema : Schema) where
  -- The column is no field of the schema, and the error says so.
  abbrev pub IsMissing : IndexError → Text → Type 0
  IsMissing e c =
      (column_with_name schema c ≡ none)
      × (e ≡ index_column_not_found c (valid_columns flattened schema))

  names : List (Column × IndexType) → List (List Text)
  names = map (λ (i : Column × IndexType). columns i.0)

  validate_all-err :
      (is : List (Column × IndexType)) (e : IndexError)
      → validate_all flattened schema (names is) ≡ err e
      → Any (λ (i : Column × IndexType). Any (IsMissing e) (columns i.0)) is
  unfolding validate_all names
  validate_all-err [] e h = absurd (ground arith)
  validate_all-err (i ∷ is) e h =
      elim (Result-cases (validate_columns flattened schema (columns i.0))) [
        | inl (u, q) ↦ there (validate_all-err is e (ground arith))
        | inr (e', q) ↦ here (validate_columns-err flattened schema (columns i.0) e (ground arith))
      ]

  validate_all-ok :
      (is : List (Column × IndexType))
      → validate_all flattened schema (names is) ≡ ok tt
      → All
          (λ (i : Column × IndexType).
            All (λ (c : Text). column_with_name schema c ≢ none) (columns i.0))
          is
  unfolding validate_all names
  validate_all-ok [] h = tt
  validate_all-ok (i ∷ is) h =
      elim (Result-cases (validate_columns flattened schema (columns i.0))) [
        | inl (tt, q) ↦ (
          validate_columns-ok flattened schema (columns i.0) q,
          validate_all-ok is (ground arith),
        )
        | inr (e', q) ↦ absurd (ground arith)
      ]

  -- If the indexes are valid, each column of each index is a field of the schema.
  pub validate_indexes-ok :
      (self : Acceleration Column)
      → validate_indexes columns flattened self schema ≡ ok tt
      → All
          (λ (i : Column × IndexType).
            All (λ (c : Text). column_with_name schema c ≢ none) (columns i.0))
          self.indexes
  unfolding validate_indexes names
  validate_indexes-ok self h = validate_all-ok self.indexes h

  -- If they are not, the error names a column of an index that is no field of the schema.
  pub validate_indexes-err :
      (self : Acceleration Column) (e : IndexError)
      → validate_indexes columns flattened self schema ≡ err e
      → Any (λ (i : Column × IndexType). Any (IsMissing e) (columns i.0)) self.indexes
  unfolding validate_indexes names
  validate_indexes-err self e h = validate_all-err self.indexes e h
