-- ===== src/Value.antt =====
-- lib/value-parser.js: the values of the cells. A double that arithmetic makes is kept as its operands, and a
-- Date as the arguments of its constructor.
pub mod Scalars
pub mod Dates
pub mod Strings
pub mod Cells
pub mod Variant
pub mod Stable
pub mod Plp
use tedious.Prelude.{ℕ, Bool}
use tedious.Prelude.Int.{ℤ}
use tedious.Buffer.{Buffer, JsString}

-- A day is counted from 1970-01-01, in the calendar of Date.UTC, and a time is in milliseconds.
pub data JsDate : Type 0 where
  -- `new Date(Date.UTC(…))`
  utc : ℤ → JsDate
  -- `new Date(year, month, date, 0, 0, 0, ms)`, of the local time zone.
  local : ℤ → ℤ → JsDate
  -- The same day at the hours, minutes, seconds and milliseconds that another date has in local time.
  local_clock : ℤ → JsDate → JsDate

pub data JsValue : Type 0 where
  js_null : JsValue
  number : ℤ → JsValue
  -- A bigint as its decimal string.
  bigint_text : ℤ → JsValue
  -- A float and a double, as their bits.
  float32 float64 : ℕ → JsValue
  -- The quotient, rounded to a double: of money, and of a decimal with its sign (true is plus).
  quotient : ℤ → ℕ → JsValue
  decimal_quotient : Bool → ℕ → ℕ → JsValue
  not_a_number : JsValue
  boolean : Bool → JsValue
  js_string : JsString → JsValue
  bytes : Buffer → JsValue
  js_date : JsDate → JsValue
  -- A date with a `nanosecondsDelta`, the second argument over 10^7.
  precise_date : JsDate → ℕ → JsValue
