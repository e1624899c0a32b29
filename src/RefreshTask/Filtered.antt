-- ===== src/RefreshTask/Filtered.antt =====
-- crates/runtime/src/accelerated_table/refresh_task.rs: which filters a refresh sends to its source.
use spiceai.Prelude.{ℕ, ◌-◌, Option, none, some, List, [], ◌∷◌, ◌≡◌, refl, ap, ◌∙◌}
use spiceai.Prelude.Text.{Text}
use spiceai.Prelude.Result.{ok}
use spiceai.Arrow.{Schema, column_with_name}
use spiceai.Refresh.{Refresh, validate_time_format}
use spiceai.Refresh.Filter.{Expr, TimestampFilterConvert, convert, gt, create}
use spiceai.Refresh.Agreement.{create-validated}
use spiceai.RefreshTask.Load.{get_filter_converter, update_filters, time_column_or_empty}

-- The time from which on rows are asked for: that of the caller, or the start of the period.
abbrev pub from_time : Option ℕ → Option ℕ → ℕ → Option ℕ
from_time (some timestamp) period now = some timestamp
from_time none none now = none
from_time none (some period) now = some (now - period)

-- The filter on a time.
abbrev pub filters_from : TimestampFilterConvert → Option ℕ → List Expr
filters_from converter none = []
filters_from converter (some timestamp) = convert converter timestamp gt ∷ []

get_filter_converter-validated :
    (refresh : Refresh) (dataset_name : Text) (schema : Schema) (column : Text)
    → refresh.time_column ≡ some column
    → validate_time_format refresh dataset_name schema ≡ ok tt
    → (converter : TimestampFilterConvert) × (get_filter_converter schema refresh ≡ some converter)
unfolding get_filter_converter time_column_or_empty
get_filter_converter-validated refresh dataset_name schema column c v =
    let (converter, h) = create-validated refresh dataset_name schema column c v in
    (
      converter,
      ap
            (λ o.
              create (column_with_name schema (time_column_or_empty o)) refresh.time_column
                refresh.time_format)
            c
          ∙ h,
    )

update_filters-filters_from :
    (converter : TimestampFilterConvert) (timestamp period : Option ℕ) (now : ℕ)
    → update_filters (some converter) timestamp period now
      ≡ filters_from converter (from_time timestamp period now)
unfolding update_filters
update_filters-filters_from converter (some timestamp) period now = refl
update_filters-filters_from converter none none now = refl
update_filters-filters_from converter none (some period) now = refl

-- For a refresh whose time column passes the validation against the schema of the source, as it does
-- when the table is made: whenever there is a time to start from, that of the caller or the start of
-- the period, the source is asked with exactly the filter for rows behind that time, and without one
-- only if there is no such time.
pub update_filters-validated :
    (refresh : Refresh) (dataset_name : Text) (federated_schema : Schema) (column : Text)
    (timestamp : Option ℕ) (now : ℕ)
    → refresh.time_column ≡ some column
    → validate_time_format refresh dataset_name federated_schema ≡ ok tt
    → (converter : TimestampFilterConvert) × (get_filter_converter federated_schema refresh
        ≡ some converter)
      × (update_filters (get_filter_converter federated_schema refresh) timestamp refresh.period now
          ≡ filters_from converter (from_time timestamp refresh.period now))
update_filters-validated refresh dataset_name federated_schema column timestamp now c v =
    let (converter, h) =
      get_filter_converter-validated refresh dataset_name federated_schema column c v in
    (
      converter,
      h,
      ap (λ o. update_filters o timestamp refresh.period now) h
          ∙ update_filters-filters_from converter timestamp refresh.period now,
    )
