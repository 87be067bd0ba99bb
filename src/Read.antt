-- ===== src/Read.antt =====
-- lib/token/helpers.js: reading a value at an offset of a buffer that may not have arrived in full.
-- A reader returns the value with the offset behind it (`Result`), throws NotEnoughDataError, or
-- throws any other error. `do` threads the offset as `({ offset, value } = read(buf, offset))` does.
pub mod Stable
pub mod Fixed
pub mod Variable
pub mod Complete
pub mod Loops
use tedious.Prelude.{
  ℕ, zero, suc, ◌+◌, ◌*◌, Bool, true, false, Option, none, some, List, [], ◌∷◌, arith,
}
use tedious.Prelude.{ltb, ◌==◌, if◌then◌else◌, length}
use tedious.Prelude.Int.{ℤ}
use tedious.Prelude.Double.{to_double}
use tedious.DataType.{DataType}
use tedious.Buffer.{Buffer, JsString, slice, le, be, signed, read_at, ucs2}

-- What may be thrown besides NotEnoughDataError. `range_error` is Node's error for a read out of
-- range, and the others are the `new Error(…)` of the parsers.
pub data Error : Type 0 where
  range_error unknown_protocol_byte : Error
  unrecognised_data_type unrecognised_type unknown_type : ℕ → Error
  -- Of lib/value-parser.js; `type_error` is the engine's, for a field of undefined.
  unsupported_data_length : ℕ → DataType → Error
  unsupported_guid_size unsupported_numeric_length : ℕ → Error
  invalid_type unreachable type_error : Error
  -- No error of the source: where the model ends, at a sql_variant whose length is less than that of its head.
  outside_model : Error
  unmatched_lengths : ℕ → ℕ → Error

pub data Result (A : Type 0) : Type 0 where
  result : A → ℕ → Result A
  not_enough_data : ℕ → Result A
  thrown : Error → Result A

-- The reading has not left the model.
abbrev pub IsInModel : {A : Type 0} → Result A → Type 0
IsInModel (thrown outside_model) = ⊥
IsInModel r = Unit {0}

abbrev pub Read : Type 0 → Type 0
Read A = Buffer → ℕ → Result A

unfoldable pub pure : {A : Type 0} → A → Read A
pure a buf offset = result a offset

unfoldable pub throw : {A : Type 0} → Error → Read A
throw e buf offset = thrown e

abbrev pub continue : {A B : Type 0} → Result A → (A → Read B) → Buffer → Result B
continue (result a offset) f buf = f a buf offset
continue (not_enough_data n) f buf = not_enough_data n
continue (thrown e) f buf = thrown e

infixl 5 ◌>>=◌ ◌>>◌
unfoldable pub ◌>>=◌ : {A B : Type 0} → Read A → (A → Read B) → Read B
unfolding pure throw
◌>>=◌ m f buf offset = continue (m buf offset) f buf

abbrev pub ◌>>◌ : {A B : Type 0} → Read A → Read B → Read B
m >> k = m >>= λ _. k

-- `if (buf.length < offset + n) throw new NotEnoughDataError(offset + n);`
unfoldable pub require : ℕ → Read (Unit {0})
require n buf offset =
    if ltb (length buf) (offset + n) then not_enough_data (offset + n) else result tt offset

-- `buf.slice(offset, offset + n)`, and `offset += n`
unfoldable pub advance : ℕ → Read Buffer
advance n buf offset = result (slice buf offset (offset + n)) (offset + n)

-- A call of Node that may throw its RangeError.
unfoldable pub node : {A : Type 0} → Option A → Read A
node none buf offset = thrown range_error
node (some a) buf offset = result a offset

-- `new Result(buf.readX(offset), offset + w)`
unfoldable pub node_read : {A : Type 0} → ℕ → (Buffer → A) → Read A
node_read w decode buf offset = elim (read_at w decode buf offset) [
  | none ↦ thrown range_error
  | some a ↦ result a (offset + w)
]

-- The shape that the fixed-width readers share: the check, then Node's read.
unfoldable pub fixed : {A : Type 0} → ℕ → (Buffer → A) → Read A
unfolding require node_read ◌>>=◌
fixed w decode = do require w; node_read w decode

unfoldable pub read_uint8 : Read ℕ
unfolding fixed
read_uint8 = fixed 1 le

unfoldable pub read_uint16_le : Read ℕ
unfolding fixed
read_uint16_le = fixed 2 le

unfoldable pub read_int16_le : Read ℤ
unfolding fixed
read_int16_le = fixed 2 (λ b. signed 2 (le b))

unfoldable pub read_uint24_le : Read ℕ
unfolding fixed
read_uint24_le = fixed 3 le

unfoldable pub read_uint32_le : Read ℕ
unfolding fixed
read_uint32_le = fixed 4 le

unfoldable pub read_uint32_be : Read ℕ
unfolding fixed
read_uint32_be = fixed 4 be

unfoldable pub read_uint40_le : Read ℕ
unfolding fixed
read_uint40_le = fixed 5 le

unfoldable pub read_int32_le : Read ℤ
unfolding fixed
read_int32_le = fixed 4 (λ b. signed 4 (le b))

unfoldable pub read_big_uint64_le : Read ℕ
unfolding fixed
read_big_uint64_le = fixed 8 le

unfoldable pub read_big_int64_le : Read ℤ
unfolding fixed
read_big_int64_le = fixed 8 (λ b. signed 8 (le b))

-- A float is represented by its IEEE 754 bit pattern.
unfoldable pub read_float_le : Read ℕ
unfolding fixed
read_float_le = fixed 4 le

unfoldable pub read_double_le : Read ℕ
unfolding fixed
read_double_le = fixed 8 le

unfoldable pub read_b_var_char : Read JsString
unfolding read_uint8 require advance ◌>>=◌
read_b_var_char = do
  char_count ← read_uint8
  require (char_count * 2)
  bytes ← advance (char_count * 2)
  pure (ucs2 bytes)

unfoldable pub read_b_var_byte : Read Buffer
unfolding read_uint8 require advance ◌>>=◌
read_b_var_byte = do byte_length ← read_uint8; require byte_length; advance byte_length

unfoldable pub read_us_var_char : Read JsString
unfolding read_uint16_le require advance ◌>>=◌
read_us_var_char = do
  char_count ← read_uint16_le
  require (char_count * 2)
  bytes ← advance (char_count * 2)
  pure (ucs2 bytes)

unfoldable pub read_us_var_byte : Read Buffer
unfolding read_uint16_le require advance ◌>>=◌
read_us_var_byte = do byte_length ← read_uint16_le; require byte_length; advance byte_length

-- The sums are of doubles: each addition is rounded, the products by powers of two are exact.
unfoldable pub read_unumeric64_le : Read ℕ
unfolding require node_read to_double ◌>>=◌
read_unumeric64_le = do
  require 8
  low ← node_read 4 le
  high ← node_read 4 le
  pure (to_double (0x100000000 * high + low))

unfoldable pub read_unumeric96_le : Read ℕ
unfolding require node_read to_double ◌>>=◌
read_unumeric96_le = do
  require 12
  dword1 ← node_read 4 le
  dword2 ← node_read 4 le
  dword3 ← node_read 4 le
  pure (to_double (to_double (dword1 + 0x100000000 * dword2) + 0x100000000 * 0x100000000 * dword3))

unfoldable pub read_unumeric128_le : Read ℕ
unfolding require node_read to_double ◌>>=◌
read_unumeric128_le = do
  require 16
  dword1 ← node_read 4 le
  dword2 ← node_read 4 le
  dword3 ← node_read 4 le
  dword4 ← node_read 4 le
  let low = to_double (dword1 + 0x100000000 * dword2)
  let middle = to_double (low + 0x100000000 * 0x100000000 * dword3)
  pure (to_double (middle + 0x100000000 * 0x100000000 * 0x100000000 * dword4))
