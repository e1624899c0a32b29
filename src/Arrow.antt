-- ===== src/Arrow.antt =====
-- The part of the `arrow` crates' data model that the program reads: data types, fields, schemas.
--
-- Of the parameters of a data type only the time zone of a timestamp is kept, which is the only one
-- that the program reads.
use spiceai.Prelude.{Option, List}
use spiceai.Prelude.Lists.{find}
use spiceai.Prelude.Text.{Text, ◌==◌}

pub data DataType : Type 0 where
  null boolean : DataType
  int8 int16 int32 int64 uint8 uint16 uint32 uint64 : DataType
  float16 float32 float64 : DataType
  timestamp : Option Text → DataType
  date32 date64 time32 time64 duration interval : DataType
  binary fixed_size_binary large_binary binary_view : DataType
  utf8 large_utf8 utf8_view : DataType
  list list_view fixed_size_list large_list large_list_view struct union dictionary : DataType
  decimal128 decimal256 map run_end_encoded : DataType

pub record Field : Type 0 where
  pub name : Text
  pub data_type : DataType

abbrev pub Schema : Type 0
Schema = List Field

-- `column_with_name` and `field_with_name`: the first field of the name.
unfoldable pub column_with_name : Schema → Text → Option Field
unfolding find
column_with_name schema name = find (λ f. f.name == name) schema
