-- ===== src/Value/Dates.antt =====
-- lib/value-parser.js: readSmallDateTime to readDateTimeOffset. A time is a number of 100 ns, below 864·10^9 in the
-- format; up to 2^53 the double `value / 10000`, truncated as Date does, is the quotient of the numbers.
use tedious.Prelude.{
  ℕ, zero, suc, ◌+◌, ◌-◌, ◌*◌, ◌/◌, ◌%◌, Bool, true, Option, none, some, ◌==◌, if◌then◌else◌,
}
use tedious.Prelude.Int.{ℤ, pos, negsuc, sub_ℕ, ◌+ℤ◌, ◌-ℤ◌, ◌*ℤ◌}
use tedious.Prelude.Double.{to_double}
use tedious.Read.{
  Read, pure, throw, ◌>>=◌, ◌>>◌, read_uint16_le, read_int32_le, read_uint24_le, read_uint32_le,
  read_uint40_le, unreachable,
}
use tedious.Value.{JsValue, JsDate, utc, local, local_clock, js_date, precise_date}

-- 1900-01-01 and 0001-01-01.
abbrev pub days_to_1900 : ℤ → ℤ
days_to_1900 days = days -ℤ pos 25567

abbrev pub days_to_0001 : ℕ → ℤ
days_to_0001 days = sub_ℕ days 719162

abbrev pub ms_of_day : ℤ → ℤ
ms_of_day day = day *ℤ pos 86400000

-- `if (useUTC) new Date(Date.UTC(…)) else new Date(…)`, at `ms` milliseconds into the day.
unfoldable pub new_date : Bool → ℤ → ℤ → JsDate
unfolding ◌+ℤ◌ ◌*ℤ◌
new_date use_utc day ms = if use_utc then utc (ms_of_day day +ℤ ms) else local day ms

unfoldable pub read_small_date_time : Bool → Read JsValue
unfolding read_uint16_le ◌-ℤ◌ new_date ◌>>=◌ pure
read_small_date_time use_utc = do
  days ← read_uint16_le
  minutes ← read_uint16_le
  pure (js_date (new_date use_utc (days_to_1900 (pos days)) (pos (minutes * 60000))))

-- Math.round(n * THREE_AND_A_THIRD): the fraction of n·10/3 is never a half, and is far enough from it for the
-- rounding of the doubles not to matter below 2^31.
abbrev pub thirds : ℕ → ℕ
thirds n = (20 * n + 3) / 6

unfoldable pub milliseconds : ℤ → ℤ
milliseconds (pos n) = pos (thirds n)
milliseconds (negsuc n) = sub_ℕ 0 (thirds (suc n))

unfoldable pub read_date_time : Bool → Read JsValue
unfolding read_int32_le ◌-ℤ◌ new_date milliseconds ◌>>=◌ pure
read_date_time use_utc = do
  days ← read_int32_le
  three_hundredths_of_second ← read_int32_le
  pure (js_date (new_date use_utc (days_to_1900 days) (milliseconds three_hundredths_of_second)))

-- `switch (dataLength)`
unfoldable pub read_ticks : ℕ → Read ℕ
unfolding read_uint24_le read_uint32_le read_uint40_le throw
read_ticks data_length =
    if data_length == 3
    then read_uint24_le
    else if data_length == 4
    then read_uint32_le
    else if data_length == 5
    then read_uint40_le
    else throw unreachable

-- `value *= 10`, the rounds that are left.
unfoldable pub scale_up : ℕ → ℕ → ℕ
unfolding to_double
scale_up zero value = value
scale_up (suc k) value = scale_up k (to_double (value * 10))

-- From an undefined scale on, `scale < 7` is false.
abbrev pub rounds_of : Option ℕ → ℕ
rounds_of none = 0
rounds_of (some scale) = 7 - scale

-- The time in readTime after the loop.
unfoldable pub read_scaled : ℕ → Option ℕ → Read ℕ
unfolding read_ticks scale_up ◌>>=◌ pure
read_scaled data_length scale = do
  value ← read_ticks data_length
  pure (scale_up (rounds_of scale) value)

-- The date that readTime makes of it.
unfoldable pub time_of : Bool → ℕ → JsDate
unfolding new_date
time_of use_utc value = new_date use_utc (pos 0) (pos (value / 10000))

unfoldable pub read_time : ℕ → Option ℕ → Bool → Read JsValue
unfolding read_scaled time_of ◌>>=◌ pure
read_time data_length scale use_utc = do
  value ← read_scaled data_length scale
  pure (precise_date (time_of use_utc value) (value % 10000))

unfoldable pub read_date : Bool → Read JsValue
unfolding read_uint24_le new_date ◌>>=◌ pure
read_date use_utc = do
  days ← read_uint24_le
  pure (js_date (new_date use_utc (days_to_0001 days) (pos 0)))

-- `+time` in UTC; in local time the clock fields of `time`.
unfoldable pub at_time : Bool → ℕ → ℕ → JsDate
unfolding new_date time_of
at_time use_utc days value =
    if use_utc
    then new_date true (days_to_0001 days) (pos (value / 10000))
    else local_clock (days_to_0001 days) (time_of use_utc value)

-- With fewer than 3 bytes, or 5 below, the length that is left for the time is negative in the source and 0 here:
-- neither is a length of `switch (dataLength)`.
unfoldable pub read_date_time2 : ℕ → Option ℕ → Bool → Read JsValue
unfolding read_scaled read_uint24_le at_time ◌>>=◌ pure
read_date_time2 data_length scale use_utc = do
  value ← read_scaled (data_length - 3) scale
  days ← read_uint24_le
  pure (precise_date (at_time use_utc days value) (value % 10000))

unfoldable pub read_date_time_offset : ℕ → Option ℕ → Read JsValue
unfolding read_scaled read_uint24_le read_uint16_le at_time ◌>>=◌ pure
read_date_time_offset data_length scale = do
  value ← read_scaled (data_length - 5) scale
  days ← read_uint24_le
  read_uint16_le
  pure (precise_date (at_time true days value) (value % 10000))
