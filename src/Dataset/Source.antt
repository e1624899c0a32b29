-- ===== src/Dataset/Source.antt =====
-- The source and the path of a dataset, and its conversion from a Spicepod.
use spiceai.Prelude.{none, some, ◌≡◌, ◌⊎◌, inl, inr, refl, ap, ◌∙◌, arith}
use spiceai.Prelude.Lists.{length}
use spiceai.Prelude.Tests.{Option-cases}
use spiceai.Prelude.Text.{
  Text, before, find_byte, joined, before-joined, find_byte-joined, drop-joined,
}
use spiceai.Prelude.Result.{Result, err, Result-cases}
use spiceai.Acceleration.{Error as AccelerationError, Acceleration}
use spiceai.Acceleration.Spicepod
use spiceai.Dataset.{
  TableReference, bare, partial, full, Error, dataset_name_includes_catalog, invalid_acceleration,
  SpicepodDataset, Dataset, parse_table_reference, transpose, try_from, source, path,
}

module _ {Column Embedding App : Type 0} (self : Dataset Column Embedding App) where
  -- The source and the path of a dataset whose `from` is a source with no `:` in it, a `:` and any
  -- path, are that source and that path.
  pub source-path :
      (s p : Text)
      → find_byte b':' s ≡ none
      → self.«from» ≡ joined b':' s (some p)
      → (source self ≡ s) × (path self ≡ p)
  unfolding source path
  source-path s p h e =
      let f : find_byte b':' self.«from» ≡ some (length s) = rw e (find_byte-joined b':' s p h) in
      (
        rw (f, source) (ap (before b':') e ∙ before-joined b':' s (some p) h),
        rw (f, path) (rw e (drop-joined b':' s p)),
      )

reference-err :
    (parse_str : Text → TableReference) (name : Text) (r : TableReference) (e : Error)
    → parse_str name ≡ r
    → parse_table_reference parse_str name ≡ err e
    → (catalog schema table : Text) × (parse_str name ≡ full catalog schema table)
      × (e ≡ dataset_name_includes_catalog catalog name)
unfolding parse_table_reference
reference-err parse_str name (bare t) e q h = absurd (ground arith)
reference-err parse_str name (partial s t) e q h = absurd (ground arith)
reference-err parse_str name (full c s t) e q h = (c, s, t, q, ground arith)

module _ {Column Embedding App : Type 0} (parse_str : Text → TableReference)
    (accelerate : Spicepod.Acceleration → Result AccelerationError (Acceleration Column))
    (dataset : SpicepodDataset Embedding) where
  -- If a dataset of a Spicepod is refused, the error is that of its acceleration, or that its name
  -- has a catalog in it.
  pub try_from-refused :
      (e : Error)
      → try_from {App = App} parse_str accelerate dataset ≡ err e
      → ((a : Spicepod.Acceleration) × (cause : AccelerationError) × (dataset.acceleration ≡ some a)
          × (accelerate a ≡ err cause)
          × (e ≡ invalid_acceleration cause))
        ⊎ ((catalog schema table : Text) × (parse_str dataset.name ≡ full catalog schema table)
            × (e ≡ dataset_name_includes_catalog catalog dataset.name))
  unfolding try_from transpose
  try_from-refused e h = elim (Result-cases (parse_table_reference parse_str dataset.name)) [
    | inr (e₂, q) ↦ elim (Option-cases dataset.acceleration) [
      | inl n ↦
          inr (reference-err parse_str dataset.name (parse_str dataset.name) e refl (ground arith))
      | inr (a, n) ↦ elim (Result-cases (accelerate a)) [
        | inl (x, ax) ↦
            inr
              (reference-err parse_str dataset.name (parse_str dataset.name) e refl (ground arith))
        | inr (cause, ax) ↦ inl (a, cause, n, ax, ground arith)
      ]
    ]
    | inl (t, q) ↦ elim (Option-cases dataset.acceleration) [
      | inl n ↦ absurd (ground arith)
      | inr (a, n) ↦ elim (Result-cases (accelerate a)) [
        | inl (x, ax) ↦ absurd (ground arith)
        | inr (cause, ax) ↦ inl (a, cause, n, ax, ground arith)
      ]
    ]
  ]
