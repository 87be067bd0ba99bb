-- ===== src/Value/Cells.antt =====
-- lib/value-parser.js: readValue, and isPLPStream.
pub mod Stable
use tedious.Prelude.{ℕ, ◌+◌, ◌-◌, Bool, true, false, Option, none, some, ◌==◌, if◌then◌else◌}
use tedious.Buffer.{Buffer, JsString}
use tedious.Collation.{Collation}
use tedious.Collation.Codepages.{Codepage}
use tedious.DataType.{
  DataType, null, tiny_int, bit, small_int, int, small_date_time, real, money, date_time, float,
  decimal, numeric, small_money, big_int, image, text, unique_identifier, int_n, n_text, bit_n,
  decimal_n, numeric_n, float_n, money_n, date_time_n, var_binary, var_char, binary, char,
  n_var_char, n_char, xml, time, date, date_time2, date_time_offset, udt, tvp, variant,
}
use tedious.Metadata.{Metadata, Options}
use tedious.Read.{
  Read, pure, throw, ◌>>=◌, ◌>>◌, read_uint8, read_uint16_le, read_uint32_le, invalid_type,
  type_error, unsupported_data_length, unsupported_guid_size,
}
use tedious.Value.{JsValue, js_null, bytes}
use tedious.Value.Scalars.{
  read_tiny_int, read_small_int, read_int, read_big_int, read_real, read_float, read_small_money,
  read_money, read_bit,
}
use tedious.Value.Dates.{
  read_small_date_time, read_date_time, read_time, read_date, read_date_time2,
  read_date_time_offset,
}
use tedious.Value.Strings.{
  read_binary, read_chars, read_nchars, read_unique_identifier, read_numeric,
}
use tedious.Value.Variant.{read_variant}

unfoldable pub read_int_n : Read JsValue
unfolding read_uint8 read_tiny_int read_small_int read_int read_big_int ◌>>=◌ pure throw
read_int_n = do
  data_length ← read_uint8
  if data_length == 0
      then pure js_null
      else if data_length == 1
      then read_tiny_int
      else if data_length == 2
      then read_small_int
      else if data_length == 4
      then read_int
      else if data_length == 8
      then read_big_int
      else throw (unsupported_data_length data_length int_n)

-- The types of two lengths: `switch (dataLength)` with the cases 0, 4 and 8.
unfoldable pub read_4_or_8 : DataType → Read JsValue → Read JsValue → Read JsValue
unfolding read_uint8 ◌>>=◌ pure throw
read_4_or_8 type read_4 read_8 = do
  data_length ← read_uint8
  if data_length == 0
      then pure js_null
      else if data_length == 4
      then read_4
      else if data_length == 8
      then read_8
      else throw (unsupported_data_length data_length type)

unfoldable pub read_float_n : Read JsValue
unfolding read_4_or_8 read_real read_float
read_float_n = read_4_or_8 float_n read_real read_float

unfoldable pub read_money_n : Read JsValue
unfolding read_4_or_8 read_small_money read_money
read_money_n = read_4_or_8 money_n read_small_money read_money

unfoldable pub read_date_time_n : Bool → Read JsValue
unfolding read_4_or_8 read_small_date_time read_date_time
read_date_time_n use_utc =
    read_4_or_8 date_time_n (read_small_date_time use_utc) (read_date_time use_utc)

unfoldable pub read_bit_n : Read JsValue
unfolding read_uint8 read_bit ◌>>=◌ pure throw
read_bit_n = do
  data_length ← read_uint8
  if data_length == 0
      then pure js_null
      else if data_length == 1
      then read_bit
      else throw (unsupported_data_length data_length bit_n)

-- `const codepage = metadata.collation.codepage`: a TypeError without a collation.
unfoldable pub codepage_of : Option Collation → Read (Option Codepage)
unfolding pure throw
codepage_of none = throw type_error
codepage_of (some collation) = pure collation.codepage

abbrev pub as_value : Read Buffer → Read JsValue
as_value read = do value ← read; pure (bytes value)

-- The length of 16 bits, of which NULL is the greatest.
unfoldable pub read_short : (ℕ → Read JsValue) → Read JsValue
unfolding read_uint16_le ◌>>=◌ pure
read_short read = do
  data_length ← read_uint16_le
  if data_length == 0xFFFF then pure js_null else read data_length

unfoldable pub read_var_char : (Codepage → Buffer → JsString) → Option Collation → Read JsValue
unfolding codepage_of read_short read_chars ◌>>=◌
read_var_char decode collation = do
  codepage ← codepage_of collation
  read_short λ data_length. read_chars decode data_length codepage

unfoldable pub read_n_var_char : Read JsValue
unfolding read_short read_nchars
read_n_var_char = read_short read_nchars

unfoldable pub read_var_binary : Read JsValue
unfolding read_short read_binary ◌>>=◌ pure
read_var_binary = read_short λ data_length. as_value (read_binary data_length)

-- The text pointer, the timestamp and the length in front of a Text, an NText or an Image.
unfoldable pub read_pointed : (ℕ → Read JsValue) → Read JsValue
unfolding read_uint8 read_uint32_le read_binary ◌>>=◌ pure
read_pointed read = do
  text_pointer_length ← read_uint8
  if text_pointer_length == 0 then pure js_null else do
    read_binary text_pointer_length
    read_binary 8
    data_length ← read_uint32_le
    read data_length

unfoldable pub read_text : (Codepage → Buffer → JsString) → Option Collation → Read JsValue
unfolding read_pointed codepage_of read_chars ◌>>=◌
read_text decode collation =
    read_pointed
      λ data_length. do codepage ← codepage_of collation; read_chars decode data_length codepage

unfoldable pub read_n_text : Read JsValue
unfolding read_pointed read_nchars
read_n_text = read_pointed read_nchars

unfoldable pub read_image : Read JsValue
unfolding read_pointed read_binary ◌>>=◌ pure
read_image = read_pointed λ data_length. as_value (read_binary data_length)

-- `if (dataLength === 0) return new Result(null, offset)`, behind a length of 8 bits.
unfoldable pub read_if_any : (ℕ → Read JsValue) → Read JsValue
unfolding read_uint8 ◌>>=◌ pure
read_if_any read = do
  data_length ← read_uint8
  if data_length == 0 then pure js_null else read data_length

unfoldable pub read_guid : Options → Read JsValue
unfolding read_uint8 read_unique_identifier ◌>>=◌ pure throw
read_guid options = do
  data_length ← read_uint8
  if data_length == 0
      then pure js_null
      else if data_length == 0x10
      then read_unique_identifier options
      else throw (unsupported_guid_size (data_length - 1))

unfoldable pub read_variant_cell : (Codepage → Buffer → JsString) → Options → Read JsValue
unfolding read_uint32_le read_variant ◌>>=◌ pure
read_variant_cell decode options = do
  data_length ← read_uint32_le
  if data_length == 0 then pure js_null else read_variant decode options data_length

module _ (decode : Codepage → Buffer → JsString) (options : Options) (m : Metadata) where
  -- `switch (type.name)`
  unfoldable pub cell_of : DataType → Read JsValue
  unfolding read_tiny_int read_small_int read_int read_big_int read_real read_float read_small_money
      read_money read_bit read_small_date_time read_date_time read_int_n read_float_n read_money_n
      read_date_time_n read_bit_n read_var_char read_n_var_char read_var_binary read_text
      read_n_text read_image read_if_any read_time read_date read_date_time2 read_date_time_offset
      read_numeric read_guid read_variant_cell pure throw
  cell_of null = pure js_null
  cell_of tiny_int = read_tiny_int
  cell_of small_int = read_small_int
  cell_of int = read_int
  cell_of big_int = read_big_int
  cell_of int_n = read_int_n
  cell_of real = read_real
  cell_of float = read_float
  cell_of float_n = read_float_n
  cell_of small_money = read_small_money
  cell_of money = read_money
  cell_of money_n = read_money_n
  cell_of bit = read_bit
  cell_of bit_n = read_bit_n
  cell_of var_char = read_var_char decode m.collation
  cell_of char = read_var_char decode m.collation
  cell_of n_var_char = read_n_var_char
  cell_of n_char = read_n_var_char
  cell_of var_binary = read_var_binary
  cell_of binary = read_var_binary
  cell_of text = read_text decode m.collation
  cell_of n_text = read_n_text
  cell_of image = read_image
  cell_of small_date_time = read_small_date_time options.use_utc
  cell_of date_time = read_date_time options.use_utc
  cell_of date_time_n = read_date_time_n options.use_utc
  cell_of time = read_if_any λ data_length. read_time data_length m.scale options.use_utc
  cell_of date = read_if_any λ data_length. read_date options.use_utc
  cell_of date_time2 =
      read_if_any λ data_length. read_date_time2 data_length m.scale options.use_utc
  cell_of date_time_offset = read_if_any λ data_length. read_date_time_offset data_length m.scale
  cell_of numeric_n = read_if_any λ data_length. read_numeric data_length m.scale
  cell_of decimal_n = read_if_any λ data_length. read_numeric data_length m.scale
  cell_of unique_identifier = read_guid options
  cell_of variant = read_variant_cell decode options
  cell_of decimal = throw invalid_type
  cell_of numeric = throw invalid_type
  cell_of xml = throw invalid_type
  cell_of udt = throw invalid_type
  cell_of tvp = throw invalid_type

  unfoldable pub read_value : Read JsValue
  unfolding cell_of
  read_value = cell_of m.type

abbrev pub is_max : Option ℕ → Bool
is_max none = false
is_max (some n) = n == 0xFFFF

abbrev pub is_plp_type : DataType → Option ℕ → Bool
is_plp_type var_char n = is_max n
is_plp_type n_var_char n = is_max n
is_plp_type var_binary n = is_max n
is_plp_type xml n = true
is_plp_type udt n = true
is_plp_type t n = false

unfoldable pub is_plp_stream : Metadata → Bool
is_plp_stream m = is_plp_type m.type m.data_length
