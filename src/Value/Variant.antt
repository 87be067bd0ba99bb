-- ===== src/Value/Variant.antt =====
-- lib/value-parser.js: readVariant.
pub mod Stable
use tedious.Prelude.{ℕ, ◌+◌, ◌-◌, Option, none, some, ltb, if◌then◌else◌}
use tedious.Buffer.{Buffer, JsString}
use tedious.Collation.Codepages.{Codepage}
use tedious.DataType.{
  DataType, type_of, null, tiny_int, bit, small_int, int, small_date_time, real, money, date_time,
  float, decimal, numeric, small_money, big_int, image, text, unique_identifier, int_n, n_text,
  bit_n, decimal_n, numeric_n, float_n, money_n, date_time_n, var_binary, var_char, binary, char,
  n_var_char, n_char, xml, time, date, date_time2, date_time_offset, udt, tvp, variant,
}
use tedious.Metadata.{Options, read_collation}
use tedious.Read.{
  Read, pure, throw, ◌>>=◌, ◌>>◌, read_uint8, read_uint16_le, invalid_type, type_error,
  outside_model,
}
use tedious.Value.{JsValue, bytes}
use tedious.Value.Scalars.{
  read_tiny_int, read_small_int, read_int, read_big_int, read_real, read_float, read_small_money,
  read_money, read_bit,
}
use tedious.Value.Dates.{
  read_small_date_time, read_date_time, read_time, read_date, read_date_time2,
  read_date_time_offset,
}
use tedious.Value.Strings.{
  read_binary, read_chars, read_nchars, read_unique_identifier, read_numeric,
}

-- The length of the bytes of a variant behind its properties. Where the declared length is less than that of the head,
-- it is negative in the source, which slices backwards and may go on before the place where it began: the model ends
-- there, with a mark that is no error of the source, and what the theorems say is for readings without it.
unfoldable pub checked : ℕ → ℕ → Read JsValue → Read JsValue
unfolding throw
checked data_length prop_bytes read =
    if ltb data_length (prop_bytes + 2) then throw outside_model else read

unfoldable pub variant_binary : ℕ → Read JsValue
unfolding read_uint16_le read_binary ◌>>=◌ pure
variant_binary data_length = do read_uint16_le; value ← read_binary data_length; pure (bytes value)

unfoldable pub variant_numeric : ℕ → Read JsValue
unfolding read_uint8 read_numeric ◌>>=◌
variant_numeric data_length = do
  precision ← read_uint8
  scale ← read_uint8
  read_numeric data_length (some scale)

unfoldable pub variant_chars : (Codepage → Buffer → JsString) → ℕ → Read JsValue
unfolding read_uint16_le read_collation read_chars ◌>>=◌
variant_chars decode data_length = do
  read_uint16_le
  collation ← read_collation
  read_chars decode data_length (collation.codepage)

unfoldable pub variant_nchars : ℕ → Read JsValue
unfolding read_uint16_le read_collation read_nchars ◌>>=◌
variant_nchars data_length = do read_uint16_le; read_collation; read_nchars data_length

unfoldable pub variant_scaled : (Option ℕ → Read JsValue) → Read JsValue
unfolding read_uint8 ◌>>=◌
variant_scaled read = do scale ← read_uint8; read (some scale)

module _ (decode : Codepage → Buffer → JsString) (options : Options)
    (data_length prop_bytes : ℕ) where
  -- `switch (type.name)`, with dataLength before its own length and that of the properties are taken off.
  unfoldable pub variant_of : DataType → Read JsValue
  unfolding read_tiny_int read_small_int read_int read_big_int read_real read_float read_small_money
      read_money read_bit read_small_date_time read_date_time read_time read_date read_date_time2
      read_date_time_offset read_unique_identifier variant_binary variant_numeric variant_chars
      variant_nchars variant_scaled checked throw
  variant_of unique_identifier = read_unique_identifier options
  variant_of bit = read_bit
  variant_of tiny_int = read_tiny_int
  variant_of small_int = read_small_int
  variant_of int = read_int
  variant_of big_int = read_big_int
  variant_of small_date_time = read_small_date_time options.use_utc
  variant_of date_time = read_date_time options.use_utc
  variant_of real = read_real
  variant_of float = read_float
  variant_of small_money = read_small_money
  variant_of money = read_money
  variant_of date = read_date options.use_utc
  variant_of time =
      variant_scaled λ scale. read_time (data_length - prop_bytes - 2) scale options.use_utc
  variant_of date_time2 =
      variant_scaled λ scale. read_date_time2 (data_length - prop_bytes - 2) scale options.use_utc
  variant_of date_time_offset =
      variant_scaled λ scale. read_date_time_offset (data_length - prop_bytes - 2) scale
  variant_of var_binary =
      checked data_length prop_bytes (variant_binary (data_length - prop_bytes - 2))
  variant_of binary = checked data_length prop_bytes (variant_binary (data_length - prop_bytes - 2))
  variant_of numeric_n = variant_numeric (data_length - prop_bytes - 2)
  variant_of decimal_n = variant_numeric (data_length - prop_bytes - 2)
  variant_of var_char =
      checked data_length prop_bytes (variant_chars decode (data_length - prop_bytes - 2))
  variant_of char =
      checked data_length prop_bytes (variant_chars decode (data_length - prop_bytes - 2))
  variant_of n_var_char =
      checked data_length prop_bytes (variant_nchars (data_length - prop_bytes - 2))
  variant_of n_char = checked data_length prop_bytes (variant_nchars (data_length - prop_bytes - 2))
  variant_of null = throw invalid_type
  variant_of decimal = throw invalid_type
  variant_of numeric = throw invalid_type
  variant_of image = throw invalid_type
  variant_of text = throw invalid_type
  variant_of int_n = throw invalid_type
  variant_of n_text = throw invalid_type
  variant_of bit_n = throw invalid_type
  variant_of float_n = throw invalid_type
  variant_of money_n = throw invalid_type
  variant_of date_time_n = throw invalid_type
  variant_of xml = throw invalid_type
  variant_of udt = throw invalid_type
  variant_of tvp = throw invalid_type
  variant_of variant = throw invalid_type

  -- `type.name` of an undefined type is a TypeError.
  abbrev pub variant_if_any : Option DataType → Read JsValue
  variant_if_any none = throw type_error
  variant_if_any (some type) = variant_of type

unfoldable pub read_variant : (Codepage → Buffer → JsString) → Options → ℕ → Read JsValue
unfolding read_uint8 type_of variant_of throw ◌>>=◌
read_variant decode options data_length = do
  base_type ← read_uint8
  prop_bytes ← read_uint8
  variant_if_any decode options data_length prop_bytes (type_of base_type)
