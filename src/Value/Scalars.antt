-- ===== src/Value/Scalars.antt =====
-- lib/value-parser.js: readTinyInt to readBit.
use tedious.Prelude.{suc, not, ◌==◌}
use tedious.Prelude.Int.{ℤ, pos, negsuc, ◌+ℤ◌, ◌*ℤ◌, sub_ℕ}
use tedious.Prelude.Double.{to_double}
use tedious.Read.{
  Read, pure, ◌>>=◌, read_uint8, read_int16_le, read_int32_le, read_uint32_le, read_big_int64_le,
  read_float_le, read_double_le,
}
use tedious.Value.{JsValue, number, bigint_text, float32, float64, quotient, boolean}

unfoldable pub read_tiny_int : Read JsValue
unfolding read_uint8 ◌>>=◌ pure
read_tiny_int = do value ← read_uint8; pure (number (pos value))

unfoldable pub read_small_int : Read JsValue
unfolding read_int16_le ◌>>=◌ pure
read_small_int = do value ← read_int16_le; pure (number value)

unfoldable pub read_int : Read JsValue
unfolding read_int32_le ◌>>=◌ pure
read_int = do value ← read_int32_le; pure (number value)

unfoldable pub read_big_int : Read JsValue
unfolding read_big_int64_le ◌>>=◌ pure
read_big_int = do value ← read_big_int64_le; pure (bigint_text value)

unfoldable pub read_real : Read JsValue
unfolding read_float_le ◌>>=◌ pure
read_real = do value ← read_float_le; pure (float32 value)

unfoldable pub read_float : Read JsValue
unfolding read_double_le ◌>>=◌ pure
read_float = do value ← read_double_le; pure (float64 value)

unfoldable pub read_small_money : Read JsValue
unfolding read_int32_le ◌>>=◌ pure
read_small_money = do value ← read_int32_le; pure (quotient value 10000)

-- A sum of doubles, rounded on either side of 0 in the same way.
abbrev pub double_ℤ : ℤ → ℤ
double_ℤ (pos n) = pos (to_double n)
double_ℤ (negsuc n) = sub_ℕ 0 (to_double (suc n))

unfoldable pub read_money : Read JsValue
unfolding read_int32_le read_uint32_le to_double ◌+ℤ◌ ◌*ℤ◌ ◌>>=◌ pure
read_money = do
  high ← read_int32_le
  low ← read_uint32_le
  pure (quotient (double_ℤ (pos low +ℤ pos 0x100000000 *ℤ high)) 10000)

unfoldable pub read_bit : Read JsValue
unfolding read_uint8 ◌>>=◌ pure
read_bit = do value ← read_uint8; pure (boolean (not (value == 0)))
