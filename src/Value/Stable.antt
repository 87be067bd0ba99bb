-- ===== src/Value/Stable.antt =====
-- The readers of lib/value-parser.js on a buffer that grows.
use tedious.Prelude.{ℕ, Bool, Option}
use tedious.Buffer.{Buffer, JsString}
use tedious.Collation.Codepages.{Codepage}
use tedious.Metadata.{Options}
use tedious.Read.Stable.{IsStable}
use tedious.Read.Variable.{
  stable_rules, read_int16_le-IsStable, read_uint24_le-IsStable, read_uint40_le-IsStable,
  read_big_int64_le-IsStable, read_float_le-IsStable, read_double_le-IsStable,
  read_unumeric64_le-IsStable, read_unumeric96_le-IsStable, read_unumeric128_le-IsStable,
}
use tedious.Value.Scalars.{
  read_tiny_int, read_small_int, read_int, read_big_int, read_real, read_float, read_small_money,
  read_money, read_bit,
}
use tedious.Value.Dates.{
  read_small_date_time, read_date_time, read_ticks, read_scaled, read_time, read_date,
  read_date_time2, read_date_time_offset,
}
use tedious.Value.Strings.{
  read_binary, read_chars, read_nchars, read_unique_identifier, read_magnitude, read_numeric,
}

pub ruleset number_rules = (
  stable_rules, read_int16_le-IsStable, read_uint24_le-IsStable, read_uint40_le-IsStable,
  read_big_int64_le-IsStable, read_float_le-IsStable, read_double_le-IsStable,
  read_unumeric64_le-IsStable, read_unumeric96_le-IsStable, read_unumeric128_le-IsStable,
)

module _ {n : ℕ} where
  pub read_tiny_int-IsStable : IsStable n read_tiny_int
  unfolding read_tiny_int
  read_tiny_int-IsStable = search number_rules depth 9

  pub read_small_int-IsStable : IsStable n read_small_int
  unfolding read_small_int
  read_small_int-IsStable = search number_rules depth 9

  pub read_int-IsStable : IsStable n read_int
  unfolding read_int
  read_int-IsStable = search number_rules depth 9

  pub read_big_int-IsStable : IsStable n read_big_int
  unfolding read_big_int
  read_big_int-IsStable = search number_rules depth 9

  pub read_real-IsStable : IsStable n read_real
  unfolding read_real
  read_real-IsStable = search number_rules depth 9

  pub read_float-IsStable : IsStable n read_float
  unfolding read_float
  read_float-IsStable = search number_rules depth 9

  pub read_small_money-IsStable : IsStable n read_small_money
  unfolding read_small_money
  read_small_money-IsStable = search number_rules depth 9

  pub read_money-IsStable : IsStable n read_money
  unfolding read_money
  read_money-IsStable = search number_rules depth 9

  pub read_bit-IsStable : IsStable n read_bit
  unfolding read_bit
  read_bit-IsStable = search number_rules depth 9

module _ {n : ℕ} where
  pub read_small_date_time-IsStable : (use_utc : Bool) → IsStable n (read_small_date_time use_utc)
  unfolding read_small_date_time
  read_small_date_time-IsStable use_utc = search number_rules depth 9

  pub read_date_time-IsStable : (use_utc : Bool) → IsStable n (read_date_time use_utc)
  unfolding read_date_time
  read_date_time-IsStable use_utc = search number_rules depth 9

  pub read_ticks-IsStable : (k : ℕ) → IsStable n (read_ticks k)
  unfolding read_ticks
  read_ticks-IsStable k = search number_rules depth 9

  pub read_scaled-IsStable : (k : ℕ) (scale : Option ℕ) → IsStable n (read_scaled k scale)
  unfolding read_scaled
  read_scaled-IsStable k scale = search (number_rules, read_ticks-IsStable) depth 9

  pub read_time-IsStable :
      (k : ℕ) (scale : Option ℕ) (utc : Bool) → IsStable n (read_time k scale utc)
  unfolding read_time
  read_time-IsStable k scale utc = search (number_rules, read_scaled-IsStable) depth 9

  pub read_date-IsStable : (use_utc : Bool) → IsStable n (read_date use_utc)
  unfolding read_date
  read_date-IsStable use_utc = search number_rules depth 9

  pub read_date_time2-IsStable :
      (k : ℕ) (scale : Option ℕ) (utc : Bool) → IsStable n (read_date_time2 k scale utc)
  unfolding read_date_time2
  read_date_time2-IsStable k scale utc = search (number_rules, read_scaled-IsStable) depth 9

  pub read_date_time_offset-IsStable :
      (k : ℕ) (scale : Option ℕ) → IsStable n (read_date_time_offset k scale)
  unfolding read_date_time_offset
  read_date_time_offset-IsStable k scale = search (number_rules, read_scaled-IsStable) depth 9

  pub read_binary-IsStable : (k : ℕ) → IsStable n (read_binary k)
  unfolding read_binary
  read_binary-IsStable k = search number_rules depth 9

  pub read_chars-IsStable :
      (decode : Codepage → Buffer → JsString) (k : ℕ) (codepage : Option Codepage)
      → IsStable n (read_chars decode k codepage)
  unfolding read_chars
  read_chars-IsStable decode k codepage = search number_rules depth 9

  pub read_nchars-IsStable : (k : ℕ) → IsStable n (read_nchars k)
  unfolding read_nchars
  read_nchars-IsStable k = search number_rules depth 9

  pub read_unique_identifier-IsStable :
      (options : Options) → IsStable n (read_unique_identifier options)
  unfolding read_unique_identifier
  read_unique_identifier-IsStable options = search (number_rules, read_binary-IsStable) depth 9

  pub read_magnitude-IsStable : (k : ℕ) → IsStable n (read_magnitude k)
  unfolding read_magnitude
  read_magnitude-IsStable k = search number_rules depth 9

  pub read_numeric-IsStable : (k : ℕ) (scale : Option ℕ) → IsStable n (read_numeric k scale)
  unfolding read_numeric
  read_numeric-IsStable k scale = search number_rules depth 9

-- The rules for the readers of one value.
pub ruleset value_rules = (
  number_rules, read_tiny_int-IsStable, read_small_int-IsStable, read_int-IsStable,
  read_big_int-IsStable, read_real-IsStable, read_float-IsStable, read_small_money-IsStable,
  read_money-IsStable, read_bit-IsStable, read_small_date_time-IsStable, read_date_time-IsStable,
  read_time-IsStable, read_date-IsStable, read_date_time2-IsStable, read_date_time_offset-IsStable,
  read_binary-IsStable, read_chars-IsStable, read_nchars-IsStable, read_unique_identifier-IsStable,
  read_numeric-IsStable,
)
