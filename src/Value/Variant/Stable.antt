-- ===== src/Value/Variant/Stable.antt =====
-- readVariant of lib/value-parser.js on a buffer that grows.
use tedious.Prelude.{ℕ, ◌-◌, Option, none, some}
use tedious.Buffer.{Buffer, JsString}
use tedious.Collation.Codepages.{Codepage}
use tedious.DataType.{
  DataType, null, tiny_int, bit, small_int, int, small_date_time, real, money, date_time, float,
  decimal, numeric, small_money, big_int, image, text, unique_identifier, int_n, n_text, bit_n,
  decimal_n, numeric_n, float_n, money_n, date_time_n, var_binary, var_char, binary, char,
  n_var_char, n_char, xml, time, date, date_time2, date_time_offset, udt, tvp, variant,
}
use tedious.Metadata.{Options}
use tedious.Metadata.Stable.{read_collation-IsStable}
use tedious.Read.{Read}
use tedious.Read.Stable.{IsStable, throw-IsStable, if-IsStable, bind-IsStable}
use tedious.Read.Variable.{read_uint8-IsStable}
use tedious.Value.{JsValue}
use tedious.Value.Stable.{
  value_rules, read_tiny_int-IsStable, read_small_int-IsStable, read_int-IsStable,
  read_big_int-IsStable, read_real-IsStable, read_float-IsStable, read_small_money-IsStable,
  read_money-IsStable, read_bit-IsStable, read_small_date_time-IsStable, read_date_time-IsStable,
  read_time-IsStable, read_date-IsStable, read_date_time2-IsStable, read_date_time_offset-IsStable,
  read_unique_identifier-IsStable,
}
use tedious.Value.Variant.{
  checked, variant_binary, variant_numeric, variant_chars, variant_nchars, variant_scaled,
  variant_of, variant_if_any, read_variant,
}

module _ {n : ℕ} where
  checked-IsStable :
      (k p : ℕ) (read : Read JsValue) → IsStable n read → IsStable n (checked k p read)
  unfolding checked
  checked-IsStable k p read h = if-IsStable _ _ _ (throw-IsStable _) h

  variant_binary-IsStable : (k : ℕ) → IsStable n (variant_binary k)
  unfolding variant_binary
  variant_binary-IsStable k = search value_rules depth 9

  variant_numeric-IsStable : (k : ℕ) → IsStable n (variant_numeric k)
  unfolding variant_numeric
  variant_numeric-IsStable k = search value_rules depth 9

  variant_chars-IsStable :
      (decode : Codepage → Buffer → JsString) (k : ℕ) → IsStable n (variant_chars decode k)
  unfolding variant_chars
  variant_chars-IsStable decode k = search (value_rules, read_collation-IsStable) depth 9

  variant_nchars-IsStable : (k : ℕ) → IsStable n (variant_nchars k)
  unfolding variant_nchars
  variant_nchars-IsStable k = search (value_rules, read_collation-IsStable) depth 9

  variant_scaled-IsStable :
      (read : Option ℕ → Read JsValue)
      → ((scale : Option ℕ) → IsStable 0 (read scale))
      → IsStable n (variant_scaled read)
  unfolding variant_scaled
  variant_scaled-IsStable read h = bind-IsStable _ _ read_uint8-IsStable λ s. h (some s)

module _ (decode : Codepage → Buffer → JsString) (options : Options) (k p : ℕ) where
  variant_of-IsStable : (type : DataType) → IsStable 0 (variant_of decode options k p type)
  unfolding variant_of
  variant_of-IsStable null = throw-IsStable _
  variant_of-IsStable tiny_int = read_tiny_int-IsStable
  variant_of-IsStable bit = read_bit-IsStable
  variant_of-IsStable small_int = read_small_int-IsStable
  variant_of-IsStable int = read_int-IsStable
  variant_of-IsStable small_date_time = read_small_date_time-IsStable options.use_utc
  variant_of-IsStable real = read_real-IsStable
  variant_of-IsStable money = read_money-IsStable
  variant_of-IsStable date_time = read_date_time-IsStable options.use_utc
  variant_of-IsStable float = read_float-IsStable
  variant_of-IsStable decimal = throw-IsStable _
  variant_of-IsStable numeric = throw-IsStable _
  variant_of-IsStable small_money = read_small_money-IsStable
  variant_of-IsStable big_int = read_big_int-IsStable
  variant_of-IsStable image = throw-IsStable _
  variant_of-IsStable text = throw-IsStable _
  variant_of-IsStable unique_identifier = read_unique_identifier-IsStable options
  variant_of-IsStable int_n = throw-IsStable _
  variant_of-IsStable n_text = throw-IsStable _
  variant_of-IsStable bit_n = throw-IsStable _
  variant_of-IsStable decimal_n = variant_numeric-IsStable (k - p - 2)
  variant_of-IsStable numeric_n = variant_numeric-IsStable (k - p - 2)
  variant_of-IsStable float_n = throw-IsStable _
  variant_of-IsStable money_n = throw-IsStable _
  variant_of-IsStable date_time_n = throw-IsStable _
  variant_of-IsStable var_binary = checked-IsStable k p _ (variant_binary-IsStable (k - p - 2))
  variant_of-IsStable var_char = checked-IsStable k p _ (variant_chars-IsStable decode (k - p - 2))
  variant_of-IsStable binary = checked-IsStable k p _ (variant_binary-IsStable (k - p - 2))
  variant_of-IsStable char = checked-IsStable k p _ (variant_chars-IsStable decode (k - p - 2))
  variant_of-IsStable n_var_char = checked-IsStable k p _ (variant_nchars-IsStable (k - p - 2))
  variant_of-IsStable n_char = checked-IsStable k p _ (variant_nchars-IsStable (k - p - 2))
  variant_of-IsStable xml = throw-IsStable _
  variant_of-IsStable time =
      variant_scaled-IsStable _ λ s. read_time-IsStable (k - p - 2) s options.use_utc
  variant_of-IsStable date = read_date-IsStable options.use_utc
  variant_of-IsStable date_time2 =
      variant_scaled-IsStable _ λ s. read_date_time2-IsStable (k - p - 2) s options.use_utc
  variant_of-IsStable date_time_offset =
      variant_scaled-IsStable _ λ s. read_date_time_offset-IsStable (k - p - 2) s
  variant_of-IsStable udt = throw-IsStable _
  variant_of-IsStable tvp = throw-IsStable _
  variant_of-IsStable variant = throw-IsStable _

  variant_if_any-IsStable :
      (type : Option DataType) → IsStable 0 (variant_if_any decode options k p type)
  variant_if_any-IsStable none = throw-IsStable _
  variant_if_any-IsStable (some type) = variant_of-IsStable type

module _ {n : ℕ} where
  pub read_variant-IsStable :
      (decode : Codepage → Buffer → JsString) (options : Options) (k : ℕ)
      → IsStable n (read_variant decode options k)
  unfolding read_variant
  read_variant-IsStable decode options k = bind-IsStable _ _ read_uint8-IsStable λ base_type.
      bind-IsStable _ _ read_uint8-IsStable λ p. variant_if_any-IsStable decode options k p _
