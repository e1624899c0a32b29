-- ===== src/Refresh/Agreement.antt =====
-- The validation of the time column, the filter and the latest timestamp agree with one another.
use spiceai.Prelude.{ℕ, true, false, Option, none, some, [], ◌∷◌, ◌≡◌, ◌≢◌, refl, inl, inr, arith}
use spiceai.Prelude.Tests.{Option-cases}
use spiceai.Prelude.Text.{Text}
use spiceai.Prelude.Result.{Result, ok, Result-cases}
use spiceai.Arrow.{DataType, Field, Schema, column_with_name}
use spiceai.Refresh.{
  Refresh, TimeFormat, number, time_type, is_invalid, expected_format, validate_time_format,
}
use spiceai.Refresh.Filter.{TimestampFilterConvert, expr_time_format, create}
use spiceai.Refresh.Append
use spiceai.Refresh.Append.{
  Batches, as_u128, is_integer, in_nanos, from_value, from_batches,
  timestamp_nanos_for_append_query,
}

is_integer-number : (t : DataType) → is_integer t ≡ true → time_type t ≡ number
unfolding is_integer time_type
is_integer-number DataType.null h = cc
is_integer-number _ h = ground arith

validated_scale :
    (t : DataType) (format : Option TimeFormat) (value : ℕ)
    → is_invalid (time_type t) (expected_format format) ≡ false
    → in_nanos t format value ≢ none
unfolding in_nanos is_invalid expected_format
validated_scale t format value h e = ground (arith, is_integer-number t)

valid_field :
    (refresh : Refresh) (dataset_name : Text) (schema : Schema) (column : Text) (field : Field)
    → refresh.time_column ≡ some column
    → column_with_name schema column ≡ some field
    → validate_time_format refresh dataset_name schema ≡ ok tt
    → is_invalid (time_type field.data_type) (expected_format refresh.time_format) ≡ false
unfolding validate_time_format
valid_field refresh dataset_name schema column field c f v = ground arith

module _ (refresh : Refresh) (dataset_name : Text) (schema : Schema) (column : Text)
    (c : refresh.time_column ≡ some column)
    (v : validate_time_format refresh dataset_name schema ≡ ok tt) where
  from_value-ne-panic : (value : ℕ) → from_value refresh schema column value ≢ none
  unfolding from_value
  from_value-ne-panic value h = elim (Option-cases (column_with_name schema column)) [
    | inl f ↦ ground arith
    | inr (field, f) ↦
        let ok_field = valid_field refresh dataset_name schema column field c f v in
        ground (arith, validated_scale field.data_type refresh.time_format value ok_field)
  ]

  from_batches-ne-panic : (batches : Batches) → from_batches refresh schema column batches ≢ none
  unfolding from_batches
  from_batches-ne-panic [] h = cc
  from_batches-ne-panic (none ∷ bs) h = cc
  from_batches-ne-panic (some [] ∷ bs) h = cc
  from_batches-ne-panic (some (x ∷ xs) ∷ bs) h = from_value-ne-panic (as_u128 x) h

-- `timestamp_nanos_for_append_query` never reaches its `unreachable!`, whatever the settings, the
-- schema and the answer of the accelerator are.
pub append_query-ne-panic :
    (refresh : Refresh) (dataset_name : Text) (schema : Schema)
    (max_timestamp : Text → Result Append.Error Batches)
    → timestamp_nanos_for_append_query refresh dataset_name schema max_timestamp ≢ none
unfolding timestamp_nanos_for_append_query
append_query-ne-panic refresh dataset_name schema max_timestamp h =
    elim (Result-cases (validate_time_format refresh dataset_name schema)) [
      | inr (e, v) ↦ ground arith
      | inl (tt, v) ↦ elim (Option-cases refresh.time_column) [
        | inl c ↦ ground arith
        | inr (column, c) ↦ elim (Result-cases (max_timestamp column)) [
          | inr (e, m) ↦ ground arith
          | inl (bs, m) ↦
              from_batches-ne-panic refresh dataset_name schema column c v bs (ground arith)
        ]
      ]
    ]

has_format :
    (t : DataType) (format : Option TimeFormat)
    → is_invalid (time_type t) (expected_format format) ≡ false
    → expr_time_format t format ≢ none
unfolding expr_time_format time_type is_invalid expected_format
has_format DataType.null format h e = ground arith
has_format _ format h e = ground arith

-- A time column that passes the validation has a filter.
pub create-validated :
    (refresh : Refresh) (dataset_name : Text) (schema : Schema) (column : Text)
    → refresh.time_column ≡ some column
    → validate_time_format refresh dataset_name schema ≡ ok tt
    → (converter : TimestampFilterConvert) × (create
          (column_with_name schema column)
          refresh.time_column
          refresh.time_format
        ≡ some converter)
unfolding create validate_time_format
create-validated refresh dataset_name schema column c v =
    elim (Option-cases (column_with_name schema column)) [
      | inl f ↦ absurd (ground arith)
      | inr (field, f) ↦
          let ok_field = valid_field refresh dataset_name schema column field c f v in
          elim (Option-cases (expr_time_format field.data_type refresh.time_format)) [
            | inl e ↦ absurd (has_format field.data_type refresh.time_format ok_field e)
            | inr (format, e) ↦
                (record { time_column = column; time_format = format }, rw (f, c, e, create) refl)
          ]
    ]
