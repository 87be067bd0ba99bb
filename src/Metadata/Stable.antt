-- ===== src/Metadata/Stable.antt =====
-- The readers of lib/metadata-parser.js on a buffer that grows.
use tedious.Prelude.{ℕ, ◌≤◌, Option, none, some, length, ◌++◌, arith}
use tedious.Buffer.{Buffer}
use tedious.DataType.{
  DataType, null, tiny_int, bit, small_int, int, small_date_time, real, money, date_time, float,
  decimal, numeric, small_money, big_int, image, text, unique_identifier, int_n, n_text, bit_n,
  decimal_n, numeric_n, float_n, money_n, date_time_n, var_binary, var_char, binary, char,
  n_var_char, n_char, xml, time, date, date_time2, date_time_offset, udt, tvp, variant,
}
use tedious.Read.{Read, read_uint8, read_uint16_le, read_uint32_le}
use tedious.Read.Stable.{
  IsStable, Settles, pure-IsStable, throw-IsStable, if-IsStable, bind-IsStable,
}
use tedious.Read.Variable.{
  stable_rules, read_uint8-IsStable, read_uint16_le-IsStable, read_uint32_le-IsStable,
}
use tedious.Metadata.{
  Metadata, Options, read_collation, read_schema, read_udt_info, with_length, with_collation,
  with_schema, with_scale, with_precision, with_udt_info, read_details, read_typed, read_metadata,
}

module _ {n : ℕ} where
  pub read_collation-IsStable : IsStable n read_collation
  unfolding read_collation
  read_collation-IsStable = search stable_rules depth 9

  pub read_schema-IsStable : IsStable n read_schema
  unfolding read_schema
  read_schema-IsStable = search stable_rules depth 12

  pub read_udt_info-IsStable : IsStable n read_udt_info
  unfolding read_udt_info
  read_udt_info-IsStable = search stable_rules depth 14

pub ruleset column_rules =
    (stable_rules, read_collation-IsStable, read_schema-IsStable, read_udt_info-IsStable)

module _ {n : ℕ} (m : Metadata) where
  with_length-IsStable : (r : Read ℕ) → IsStable n r → IsStable n (with_length r m)
  unfolding with_length
  with_length-IsStable r h = bind-IsStable _ _ h λ a. pure-IsStable _

  with_collation-IsStable : (r : Read ℕ) → IsStable n r → IsStable n (with_collation r m)
  unfolding with_collation
  with_collation-IsStable r h =
      bind-IsStable _ _ h λ a. bind-IsStable _ _ read_collation-IsStable λ b. pure-IsStable _

  with_schema-IsStable : IsStable n (with_schema m)
  unfolding with_schema
  with_schema-IsStable = search column_rules depth 9

  with_scale-IsStable : IsStable n (with_scale m)
  unfolding with_scale
  with_scale-IsStable = search column_rules depth 9

  with_precision-IsStable : IsStable n (with_precision m)
  unfolding with_precision
  with_precision-IsStable = search column_rules depth 9

  with_udt_info-IsStable : IsStable n (with_udt_info m)
  unfolding with_udt_info
  with_udt_info-IsStable = search column_rules depth 9

  read_details-IsStable : (t : DataType) → IsStable n (read_details t m)
  unfolding read_details
  read_details-IsStable null = pure-IsStable m
  read_details-IsStable tiny_int = pure-IsStable m
  read_details-IsStable bit = pure-IsStable m
  read_details-IsStable small_int = pure-IsStable m
  read_details-IsStable int = pure-IsStable m
  read_details-IsStable small_date_time = pure-IsStable m
  read_details-IsStable real = pure-IsStable m
  read_details-IsStable money = pure-IsStable m
  read_details-IsStable date_time = pure-IsStable m
  read_details-IsStable float = pure-IsStable m
  read_details-IsStable decimal = throw-IsStable _
  read_details-IsStable numeric = throw-IsStable _
  read_details-IsStable small_money = pure-IsStable m
  read_details-IsStable big_int = pure-IsStable m
  read_details-IsStable image = with_length-IsStable read_uint32_le read_uint32_le-IsStable
  read_details-IsStable text = with_collation-IsStable read_uint32_le read_uint32_le-IsStable
  read_details-IsStable unique_identifier = with_length-IsStable read_uint8 read_uint8-IsStable
  read_details-IsStable int_n = with_length-IsStable read_uint8 read_uint8-IsStable
  read_details-IsStable n_text = with_collation-IsStable read_uint32_le read_uint32_le-IsStable
  read_details-IsStable bit_n = with_length-IsStable read_uint8 read_uint8-IsStable
  read_details-IsStable decimal_n = with_precision-IsStable
  read_details-IsStable numeric_n = with_precision-IsStable
  read_details-IsStable float_n = with_length-IsStable read_uint8 read_uint8-IsStable
  read_details-IsStable money_n = with_length-IsStable read_uint8 read_uint8-IsStable
  read_details-IsStable date_time_n = with_length-IsStable read_uint8 read_uint8-IsStable
  read_details-IsStable var_binary = with_length-IsStable read_uint16_le read_uint16_le-IsStable
  read_details-IsStable var_char = with_collation-IsStable read_uint16_le read_uint16_le-IsStable
  read_details-IsStable binary = with_length-IsStable read_uint16_le read_uint16_le-IsStable
  read_details-IsStable char = with_collation-IsStable read_uint16_le read_uint16_le-IsStable
  read_details-IsStable n_var_char = with_collation-IsStable read_uint16_le read_uint16_le-IsStable
  read_details-IsStable n_char = with_collation-IsStable read_uint16_le read_uint16_le-IsStable
  read_details-IsStable xml = with_schema-IsStable
  read_details-IsStable time = with_scale-IsStable
  read_details-IsStable date = pure-IsStable m
  read_details-IsStable date_time2 = with_scale-IsStable
  read_details-IsStable date_time_offset = with_scale-IsStable
  read_details-IsStable udt = with_udt_info-IsStable
  read_details-IsStable tvp = throw-IsStable _
  read_details-IsStable variant = with_length-IsStable read_uint32_le read_uint32_le-IsStable

module _ {n : ℕ} where
  read_typed-IsStable :
      (user_type flags k : ℕ) (t : Option DataType) → IsStable n (read_typed user_type flags k t)
  read_typed-IsStable user_type flags k none = throw-IsStable _
  read_typed-IsStable user_type flags k (some t) = read_details-IsStable _ t

module _ {n : ℕ} where
  -- Reading the metadata of a column is stable.
  pub read_metadata-IsStable : (options : Options) → IsStable n (read_metadata options)
  unfolding read_metadata
  read_metadata-IsStable options =
      bind-IsStable _ _ (if-IsStable _ _ _ read_uint16_le-IsStable read_uint32_le-IsStable) λ u.
        bind-IsStable _ _ read_uint16_le-IsStable
          λ f. bind-IsStable _ _ read_uint8-IsStable λ k. read_typed-IsStable u f k _

-- From an offset inside the buffer, bytes that arrive later change no answer of readMetadata but
-- NotEnoughDataError: the value, the offset behind it and any other error are the same on a longer
-- buffer.
pub read_metadata_append :
    (options : Options) (buf more : Buffer) (offset : ℕ)
    → offset ≤ length buf
    → Settles (read_metadata options buf offset) (read_metadata options (buf ++ more) offset)
read_metadata_append options buf more offset h =
    (read_metadata-IsStable {n = 0} options).settled buf more offset (omega arith)
