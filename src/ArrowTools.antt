-- ===== src/ArrowTools.antt =====
-- crates/arrow_tools/src/schema.rs: `verify_schema`.
--
-- An error keeps the two types where the code prints them. `same_type` is `==` of the `arrow`
-- crates on data types.
pub mod Cast
use spiceai.Prelude.{
  ℕ, zero, suc, Bool, true, not, Option, none, some, [], ◌∷◌, map, ◌≡◌, ◌↔◌, refl, arith,
}
use spiceai.Prelude.Lists.{length, get_elem?}
use spiceai.Prelude.Tests.{if◌then◌else◌, nat_beq}
use spiceai.Prelude.Result.{Result, ok, err}
use spiceai.Prelude.Text.{Text}
use spiceai.Arrow.{DataType, Field, Schema}

pub data Error : Type 0 where
  schema_mismatch_num_fields : ℕ → ℕ → Error
  schema_mismatch_data_type : Text → DataType → DataType → Error
  unable_to_get_field_data_type : Error

module _ (same_type : DataType → DataType → Bool) where
  unfoldable pub verify_field : Option Field → Option Field → Result Error (Unit {0})
  verify_field none b = err unable_to_get_field_data_type
  verify_field (some a) none = err unable_to_get_field_data_type
  verify_field (some a) (some b) =
      if same_type a.data_type b.data_type
      then ok tt
      else err (schema_mismatch_data_type a.name a.data_type b.data_type)

  -- The loop, with the number of passes left and the index.
  unfoldable pub verify_from : Schema → Schema → ℕ → ℕ → Result Error (Unit {0})
  verify_from expected actual zero idx = ok tt
  verify_from expected actual (suc n) idx =
      elim (verify_field (get_elem? expected idx) (get_elem? actual idx)) [
        | ok _ ↦ verify_from expected actual n (suc idx)
        | err e ↦ err e
      ]

  unfoldable pub verify_schema : Schema → Schema → Result Error (Unit {0})
  verify_schema expected actual =
      if not (nat_beq (length expected) (length actual))
      then err (schema_mismatch_num_fields (length expected) (length actual))
      else verify_from expected actual (length expected) 0

module _ (same_type : DataType → DataType → Bool) where
  verify_from-shift :
      (a b : Field) (expected actual : Schema) (n idx : ℕ)
      → verify_from same_type (a ∷ expected) (b ∷ actual) n (suc idx)
        ≡ verify_from same_type expected actual n idx
  unfolding verify_from
  verify_from-shift a b expected actual zero idx = refl
  verify_from-shift a b expected actual (suc n) idx =
      ground (arith, verify_from-shift a b expected actual n (suc idx))

length-of_equal :
    (xs ys : Schema) → map (λ f. f.data_type) xs ≡ map (λ f. f.data_type) ys → length xs ≡ length ys
length-of_equal [] [] h = refl
length-of_equal [] (y ∷ ys) h = ground (arith, h)
length-of_equal (x ∷ xs) [] h = ground (arith, h)
length-of_equal (x ∷ xs) (y ∷ ys) h = ground (arith, h, length-of_equal xs ys)

-- `==` of data types is equality.
abbrev pub IsEquality : (DataType → DataType → Bool) → Type 0
IsEquality same_type = (x y : DataType) → (same_type x y ≡ true) ↔ (x ≡ y)

module _ (same_type : DataType → DataType → Bool) (equality : IsEquality same_type) where
  verify_from-types :
      (expected actual : Schema)
      → length expected ≡ length actual
      → (verify_from same_type expected actual (length expected) 0 ≡ ok tt)
        ↔ (map (λ f. f.data_type) expected ≡ map (λ f. f.data_type) actual)
  unfolding verify_from verify_field
  verify_from-types [] [] h = ground arith
  verify_from-types [] (b ∷ actual) h = absurd (omega (arith, h))
  verify_from-types (a ∷ expected) [] h = absurd (omega (arith, h))
  verify_from-types (a ∷ expected) (b ∷ actual) h = ground (
    arith,
    verify_from-types expected actual (omega (arith, h)),
    equality a.data_type b.data_type,
    verify_from-shift same_type a b expected actual (length expected) 0,
  )

  -- Two schemas pass the check exactly when their data types are the same in the same order. Names
  -- are not compared.
  pub verify_schema-types :
      (expected actual : Schema)
      → (verify_schema same_type expected actual ≡ ok tt)
        ↔ (map (λ f. f.data_type) expected ≡ map (λ f. f.data_type) actual)
  unfolding verify_schema
  verify_schema-types expected actual =
      ground (arith, verify_from-types expected actual, length-of_equal expected actual)
