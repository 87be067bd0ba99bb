-- ===== src/Metadata.antt =====
-- lib/metadata-parser.js: the description of a column. `undefined` is `none`.
pub mod Stable
use tedious.Prelude.{
  ℕ, zero, suc, Bool, true, false, Option, none, some, List, [], ◌∷◌, ◌==◌, if◌then◌else◌, not,
}
use tedious.Buffer.{Buffer, JsString, str_lt}
use tedious.Collation.{Collation, from_buffer}
use tedious.DataType.{
  DataType, type_id, type_of, null, tiny_int, bit, small_int, int, small_date_time, real, money,
  date_time, float, decimal, numeric, small_money, big_int, image, text, unique_identifier, int_n,
  n_text, bit_n, decimal_n, numeric_n, float_n, money_n, date_time_n, var_binary, var_char, binary,
  char, n_var_char, n_char, xml, time, date, date_time2, date_time_offset, udt, tvp, variant,
}
use tedious.Read.{
  Read, pure, throw, ◌>>=◌, ◌>>◌, require, advance, read_uint8, read_uint16_le, read_uint32_le,
  read_b_var_char, read_us_var_char, unrecognised_data_type, unrecognised_type,
}

pub record Schema : Type 0 where
  pub dbname : JsString
  pub owning_schema : JsString
  pub xml_schema_collection : JsString

pub record UdtInfo : Type 0 where
  pub max_byte_size : ℕ
  pub dbname : JsString
  pub owning_schema : JsString
  pub type_name : JsString
  pub assembly_name : JsString

pub record Metadata : Type 0 where
  pub user_type : ℕ
  pub flags : ℕ
  pub type : DataType
  pub collation : Option Collation
  pub precision : Option ℕ
  pub scale : Option ℕ
  pub data_length : Option ℕ
  pub schema : Option Schema
  pub udt_info : Option UdtInfo

-- ParserOptions, as far as the parsers read them.
pub record Options : Type 0 where
  pub tds_version : JsString
  pub column_name_replacer : Option (JsString → ℕ → Metadata → JsString)
  pub camel_case_columns : Bool
  pub use_utc : Bool
  pub lower_case_guids : Bool
  pub use_column_names : Bool

-- `options.tdsVersion < '7_2'`
unfoldable pub before_7_2 : Options → Bool
unfolding str_lt
before_7_2 options = str_lt options.tds_version (0x37 ∷ 0x5f ∷ 0x32 ∷ [])

unfoldable pub read_collation : Read Collation
unfolding require advance from_buffer ◌>>=◌
read_collation = do require 5; bytes ← advance 5; pure (from_buffer bytes)

unfoldable pub read_schema : Read (Option Schema)
unfolding read_uint8 read_b_var_char read_us_var_char ◌>>=◌
read_schema = do
  schema_present ← read_uint8
  if not (schema_present == 0x01) then pure none else do
    dbname ← read_b_var_char
    owning_schema ← read_b_var_char
    xml_schema_collection ← read_us_var_char
    pure (
        some (record {
          dbname = dbname;
          owning_schema = owning_schema;
          xml_schema_collection = xml_schema_collection;
        }))

unfoldable pub read_udt_info : Read UdtInfo
unfolding read_uint16_le read_b_var_char read_us_var_char ◌>>=◌
read_udt_info = do
  max_byte_size ← read_uint16_le
  dbname ← read_b_var_char
  owning_schema ← read_b_var_char
  type_name ← read_b_var_char
  assembly_name ← read_us_var_char
  pure (record {
    max_byte_size = max_byte_size;
    dbname = dbname;
    owning_schema = owning_schema;
    type_name = type_name;
    assembly_name = assembly_name;
  })

-- The fields that every case of the switch fills in the same way.
unfoldable pub base : ℕ → ℕ → DataType → Metadata
base user_type flags type = record {
  user_type = user_type;
  flags = flags;
  type = type;
  collation = none;
  precision = none;
  scale = none;
  data_length = none;
  schema = none;
  udt_info = none;
}

-- `case 'IntN'` and the like, `case 'Variant'` and the like, `case 'VarBinary'`: a data length.
unfoldable pub with_length : Read ℕ → Metadata → Read Metadata
unfolding ◌>>=◌
with_length read_length m = do
  data_length ← read_length
  pure (record {
    user_type = m.user_type;
    flags = m.flags;
    type = m.type;
    collation = none;
    precision = none;
    scale = none;
    data_length = some data_length;
    schema = none;
    udt_info = none;
  })

-- `case 'VarChar'` and the like, `case 'Text'`: a data length and a collation.
unfoldable pub with_collation : Read ℕ → Metadata → Read Metadata
unfolding read_collation ◌>>=◌
with_collation read_length m = do
  data_length ← read_length
  collation ← read_collation
  pure (record {
    user_type = m.user_type;
    flags = m.flags;
    type = m.type;
    collation = some collation;
    precision = none;
    scale = none;
    data_length = some data_length;
    schema = none;
    udt_info = none;
  })

-- `case 'Xml'`
unfoldable pub with_schema : Metadata → Read Metadata
unfolding read_schema ◌>>=◌
with_schema m = do
  schema ← read_schema
  pure (record {
    user_type = m.user_type;
    flags = m.flags;
    type = m.type;
    collation = none;
    precision = none;
    scale = none;
    data_length = none;
    schema = schema;
    udt_info = none;
  })

-- `case 'Time'` and the like.
unfoldable pub with_scale : Metadata → Read Metadata
unfolding read_uint8 ◌>>=◌
with_scale m = do
  scale ← read_uint8
  pure (record {
    user_type = m.user_type;
    flags = m.flags;
    type = m.type;
    collation = none;
    precision = none;
    scale = some scale;
    data_length = none;
    schema = none;
    udt_info = none;
  })

-- `case 'NumericN'`, `case 'DecimalN'`
unfoldable pub with_precision : Metadata → Read Metadata
unfolding read_uint8 ◌>>=◌
with_precision m = do
  data_length ← read_uint8
  precision ← read_uint8
  scale ← read_uint8
  pure (record {
    user_type = m.user_type;
    flags = m.flags;
    type = m.type;
    collation = none;
    precision = some precision;
    scale = some scale;
    data_length = some data_length;
    schema = none;
    udt_info = none;
  })

-- `case 'UDT'`
unfoldable pub with_udt_info : Metadata → Read Metadata
unfolding read_udt_info ◌>>=◌
with_udt_info m = do
  udt_info ← read_udt_info
  pure (record {
    user_type = m.user_type;
    flags = m.flags;
    type = m.type;
    collation = none;
    precision = none;
    scale = none;
    data_length = none;
    schema = none;
    udt_info = some udt_info;
  })

-- `switch (type.name)`; no case names Decimal, Numeric and TVP.
unfoldable pub read_details : DataType → Metadata → Read Metadata
unfolding with_length with_collation with_schema with_scale with_precision with_udt_info type_id
    pure throw
read_details null m = pure m
read_details tiny_int m = pure m
read_details small_int m = pure m
read_details int m = pure m
read_details big_int m = pure m
read_details real m = pure m
read_details float m = pure m
read_details small_money m = pure m
read_details money m = pure m
read_details bit m = pure m
read_details small_date_time m = pure m
read_details date_time m = pure m
read_details date m = pure m
read_details int_n m = with_length read_uint8 m
read_details float_n m = with_length read_uint8 m
read_details money_n m = with_length read_uint8 m
read_details bit_n m = with_length read_uint8 m
read_details unique_identifier m = with_length read_uint8 m
read_details date_time_n m = with_length read_uint8 m
read_details variant m = with_length read_uint32_le m
read_details var_char m = with_collation read_uint16_le m
read_details char m = with_collation read_uint16_le m
read_details n_var_char m = with_collation read_uint16_le m
read_details n_char m = with_collation read_uint16_le m
read_details text m = with_collation read_uint32_le m
read_details n_text m = with_collation read_uint32_le m
read_details var_binary m = with_length read_uint16_le m
read_details binary m = with_length read_uint16_le m
read_details image m = with_length read_uint32_le m
read_details xml m = with_schema m
read_details time m = with_scale m
read_details date_time2 m = with_scale m
read_details date_time_offset m = with_scale m
read_details numeric_n m = with_precision m
read_details decimal_n m = with_precision m
read_details udt m = with_udt_info m
read_details decimal m = throw (unrecognised_type (type_id decimal))
read_details numeric m = throw (unrecognised_type (type_id numeric))
read_details tvp m = throw (unrecognised_type (type_id tvp))

abbrev pub read_typed : ℕ → ℕ → ℕ → Option DataType → Read Metadata
read_typed user_type flags n none = throw (unrecognised_data_type n)
read_typed user_type flags n (some type) = read_details type (base user_type flags type)

unfoldable pub read_metadata : Options → Read Metadata
unfolding before_7_2 read_uint8 read_uint16_le read_uint32_le base read_details type_of ◌>>=◌ throw
read_metadata options = do
  user_type ← if before_7_2 options then read_uint16_le else read_uint32_le
  flags ← read_uint16_le
  type_number ← read_uint8
  read_typed user_type flags type_number (type_of type_number)
