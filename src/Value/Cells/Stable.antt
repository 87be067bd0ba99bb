-- ===== src/Value/Cells/Stable.antt =====
-- readValue of lib/value-parser.js on a buffer that grows.
use tedious.Prelude.{ℕ, ◌≤◌, Bool, Option, none, some, length, ◌++◌, arith}
use tedious.Buffer.{Buffer, JsString}
use tedious.Collation.{Collation}
use tedious.Collation.Codepages.{Codepage}
use tedious.DataType.{
  DataType, null, tiny_int, bit, small_int, int, small_date_time, real, money, date_time, float,
  decimal, numeric, small_money, big_int, image, text, unique_identifier, int_n, n_text, bit_n,
  decimal_n, numeric_n, float_n, money_n, date_time_n, var_binary, var_char, binary, char,
  n_var_char, n_char, xml, time, date, date_time2, date_time_offset, udt, tvp, variant,
}
use tedious.Metadata.{Metadata, Options}
use tedious.Read.{IsInModel, Read}
use tedious.Read.Stable.{
  IsStable, Settles, pure-IsStable, throw-IsStable, if-IsStable, bind-IsStable,
}
use tedious.Read.Variable.{read_uint8-IsStable, read_uint16_le-IsStable, read_uint32_le-IsStable}
use tedious.Value.{JsValue}
use tedious.Value.Stable.{
  value_rules, read_tiny_int-IsStable, read_small_int-IsStable, read_int-IsStable,
  read_big_int-IsStable, read_real-IsStable, read_float-IsStable, read_small_money-IsStable,
  read_money-IsStable, read_bit-IsStable, read_small_date_time-IsStable, read_date_time-IsStable,
  read_time-IsStable, read_date-IsStable, read_date_time2-IsStable, read_date_time_offset-IsStable,
  read_numeric-IsStable, read_chars-IsStable, read_nchars-IsStable, read_binary-IsStable,
}
use tedious.Value.Variant.Stable.{read_variant-IsStable}
use tedious.Value.Cells.{
  read_int_n, read_4_or_8, read_float_n, read_money_n, read_date_time_n, read_bit_n, codepage_of,
  read_short, read_var_char, read_n_var_char, read_var_binary, read_pointed, read_text, read_n_text,
  read_image, read_if_any, read_guid, read_variant_cell, cell_of, read_value, as_value,
}

as_value-IsStable : {n : ℕ} (p : Read Buffer) → IsStable n p → IsStable n (as_value p)
as_value-IsStable p h = bind-IsStable _ _ h λ v. pure-IsStable _

module _ {n : ℕ} where
  read_int_n-IsStable : IsStable n read_int_n
  unfolding read_int_n
  read_int_n-IsStable = search value_rules depth 12

  read_4_or_8-IsStable :
      (type : DataType) (p q : Read JsValue)
      → IsStable 0 p
      → IsStable 0 q
      → IsStable n (read_4_or_8 type p q)
  unfolding read_4_or_8
  read_4_or_8-IsStable type p q hp hq = search value_rules depth 12

  read_float_n-IsStable : IsStable n read_float_n
  unfolding read_float_n
  read_float_n-IsStable = read_4_or_8-IsStable _ _ _ read_real-IsStable read_float-IsStable

  read_money_n-IsStable : IsStable n read_money_n
  unfolding read_money_n
  read_money_n-IsStable = read_4_or_8-IsStable _ _ _ read_small_money-IsStable read_money-IsStable

  read_date_time_n-IsStable : (utc : Bool) → IsStable n (read_date_time_n utc)
  unfolding read_date_time_n
  read_date_time_n-IsStable utc =
      read_4_or_8-IsStable _ _ _ (read_small_date_time-IsStable utc) (read_date_time-IsStable utc)

  read_bit_n-IsStable : IsStable n read_bit_n
  unfolding read_bit_n
  read_bit_n-IsStable = search value_rules depth 12

  codepage_of-IsStable : (c : Option Collation) → IsStable n (codepage_of c)
  unfolding codepage_of
  codepage_of-IsStable none = throw-IsStable _
  codepage_of-IsStable (some c) = pure-IsStable _

  read_short-IsStable :
      (f : ℕ → Read JsValue) → ((k : ℕ) → IsStable 0 (f k)) → IsStable n (read_short f)
  unfolding read_short
  read_short-IsStable f h =
      bind-IsStable _ _ read_uint16_le-IsStable λ k. if-IsStable _ _ _ (pure-IsStable _) (h k)

  read_pointed-IsStable :
      (f : ℕ → Read JsValue) → ((k : ℕ) → IsStable 0 (f k)) → IsStable n (read_pointed f)
  unfolding read_pointed
  read_pointed-IsStable f h = bind-IsStable _ _ read_uint8-IsStable λ p.
      if-IsStable _ _ _ (pure-IsStable _) (
        bind-IsStable _ _ (read_binary-IsStable p) λ a.
          bind-IsStable _ _ (read_binary-IsStable 8)
            λ b. bind-IsStable _ _ read_uint32_le-IsStable h)

  read_if_any-IsStable :
      (f : ℕ → Read JsValue) → ((k : ℕ) → IsStable 0 (f k)) → IsStable n (read_if_any f)
  unfolding read_if_any
  read_if_any-IsStable f h =
      bind-IsStable _ _ read_uint8-IsStable λ k. if-IsStable _ _ _ (pure-IsStable _) (h k)

  read_guid-IsStable : (options : Options) → IsStable n (read_guid options)
  unfolding read_guid
  read_guid-IsStable options = search value_rules depth 12

  read_n_var_char-IsStable : IsStable n read_n_var_char
  unfolding read_n_var_char
  read_n_var_char-IsStable = read_short-IsStable _ λ k. read_nchars-IsStable k

  read_var_binary-IsStable : IsStable n read_var_binary
  unfolding read_var_binary
  read_var_binary-IsStable = read_short-IsStable _ λ k. as_value-IsStable _ (read_binary-IsStable k)

  read_n_text-IsStable : IsStable n read_n_text
  unfolding read_n_text
  read_n_text-IsStable = read_pointed-IsStable _ λ k. read_nchars-IsStable k

  read_image-IsStable : IsStable n read_image
  unfolding read_image
  read_image-IsStable = read_pointed-IsStable _ λ k. as_value-IsStable _ (read_binary-IsStable k)

module _ {n : ℕ} (decode : Codepage → Buffer → JsString) where
  read_var_char-IsStable : (c : Option Collation) → IsStable n (read_var_char decode c)
  unfolding read_var_char
  read_var_char-IsStable c =
      bind-IsStable _ _ (codepage_of-IsStable c)
        λ p. read_short-IsStable _ λ k. read_chars-IsStable decode k p

  read_text-IsStable : (c : Option Collation) → IsStable n (read_text decode c)
  unfolding read_text
  read_text-IsStable c =
      read_pointed-IsStable _
        λ k. bind-IsStable _ _ (codepage_of-IsStable c) λ p. read_chars-IsStable decode k p

  read_variant_cell-IsStable : (options : Options) → IsStable n (read_variant_cell decode options)
  unfolding read_variant_cell
  read_variant_cell-IsStable options =
      bind-IsStable _ _ read_uint32_le-IsStable
        λ k. if-IsStable _ _ _ (pure-IsStable _) (read_variant-IsStable decode options k)

module _ (decode : Codepage → Buffer → JsString) (options : Options) (m : Metadata) where
  cell_of-IsStable : (type : DataType) → IsStable 0 (cell_of decode options m type)
  unfolding cell_of
  cell_of-IsStable null = pure-IsStable _
  cell_of-IsStable tiny_int = read_tiny_int-IsStable
  cell_of-IsStable bit = read_bit-IsStable
  cell_of-IsStable small_int = read_small_int-IsStable
  cell_of-IsStable int = read_int-IsStable
  cell_of-IsStable small_date_time = read_small_date_time-IsStable options.use_utc
  cell_of-IsStable real = read_real-IsStable
  cell_of-IsStable money = read_money-IsStable
  cell_of-IsStable date_time = read_date_time-IsStable options.use_utc
  cell_of-IsStable float = read_float-IsStable
  cell_of-IsStable decimal = throw-IsStable _
  cell_of-IsStable numeric = throw-IsStable _
  cell_of-IsStable small_money = read_small_money-IsStable
  cell_of-IsStable big_int = read_big_int-IsStable
  cell_of-IsStable image = read_image-IsStable
  cell_of-IsStable text = read_text-IsStable decode m.collation
  cell_of-IsStable unique_identifier = read_guid-IsStable options
  cell_of-IsStable int_n = read_int_n-IsStable
  cell_of-IsStable n_text = read_n_text-IsStable
  cell_of-IsStable bit_n = read_bit_n-IsStable
  cell_of-IsStable decimal_n = read_if_any-IsStable _ λ k. read_numeric-IsStable k m.scale
  cell_of-IsStable numeric_n = read_if_any-IsStable _ λ k. read_numeric-IsStable k m.scale
  cell_of-IsStable float_n = read_float_n-IsStable
  cell_of-IsStable money_n = read_money_n-IsStable
  cell_of-IsStable date_time_n = read_date_time_n-IsStable options.use_utc
  cell_of-IsStable var_binary = read_var_binary-IsStable
  cell_of-IsStable var_char = read_var_char-IsStable decode m.collation
  cell_of-IsStable binary = read_var_binary-IsStable
  cell_of-IsStable char = read_var_char-IsStable decode m.collation
  cell_of-IsStable n_var_char = read_n_var_char-IsStable
  cell_of-IsStable n_char = read_n_var_char-IsStable
  cell_of-IsStable xml = throw-IsStable _
  cell_of-IsStable time = read_if_any-IsStable _ λ k. read_time-IsStable k m.scale options.use_utc
  cell_of-IsStable date = read_if_any-IsStable _ λ k. read_date-IsStable options.use_utc
  cell_of-IsStable date_time2 =
      read_if_any-IsStable _ λ k. read_date_time2-IsStable k m.scale options.use_utc
  cell_of-IsStable date_time_offset =
      read_if_any-IsStable _ λ k. read_date_time_offset-IsStable k m.scale
  cell_of-IsStable udt = throw-IsStable _
  cell_of-IsStable tvp = throw-IsStable _
  cell_of-IsStable variant = read_variant_cell-IsStable decode options

  pub read_value-IsStable : IsStable 0 (read_value decode options m)
  unfolding read_value
  read_value-IsStable = cell_of-IsStable m.type

  -- From an offset inside the buffer, and where the reading meets no sql_variant of a length less than that of its head,
  -- bytes that arrive later change no answer of readValue but NotEnoughDataError: the value, the offset behind it and any
  -- other error are the same on a longer buffer.
  pub read_value_append :
      (buf more : Buffer) (offset : ℕ)
      → offset ≤ length buf
      → IsInModel (read_value decode options m buf offset)
      → Settles
          (read_value decode options m buf offset)
          (read_value decode options m (buf ++ more) offset)
  read_value_append buf more offset h inside =
      read_value-IsStable.settled buf more offset (omega arith)
