-- ===== src/TrackingBuffer.antt =====
-- lib/tracking-buffer/writable-tracking-buffer.js: a buffer that grows as values are written.
-- A write that Node refuses (RangeError for a value that does not fit) is `none`.
pub mod Growth
pub mod Emits
pub mod Strings
use tedious.Prelude.{
  ℕ, zero, suc, ◌+◌, ◌-◌, ◌*◌, ◌/◌, ◌%◌, ◌^◌, ◌≡◌, Bool, true, false, Option, none, some,
}
use tedious.Prelude.{
  List, [], ◌∷◌, ◌++◌, ltb, leb, ◌==◌, ◌&&◌, ◌||◌, if◌then◌else◌, length, take, drop, replicate,
}
use tedious.Prelude.Int.{ℤ, pos, negsuc}
use tedious.Buffer.{
  Buffer, JsString, to_le, to_be, signed, unsigned, ucs2_bytes, utf8_bytes, ascii_bytes,
}

pub data Encoding : Type 0 where
  utf8_encoding ucs2_encoding ascii_encoding : Encoding

pub record Tracker : Type 0 where
  pub initial_size : ℕ
  pub encoding : Encoding
  pub double_size_growth : Bool
  pub buffer : Buffer
  pub composite_buffer : Buffer
  pub position : ℕ

-- Buffer.alloc(size, 0)
abbrev pub alloc : ℕ → Buffer
alloc size = replicate size 0

unfoldable pub new_tracker : ℕ → Encoding → Bool → Tracker
new_tracker size enc double = record {
  initial_size = size;
  encoding = enc;
  double_size_growth = double;
  buffer = alloc size;
  composite_buffer = [];
  position = 0;
}

unfoldable pub new_buffer : ℕ → Tracker → Tracker
new_buffer size t = record t {
  buffer = alloc size;
  composite_buffer = t.composite_buffer ++ take t.position t.buffer;
  position = 0;
}

-- `while (size < requiredLength) size *= 2`, with fuel.
unfoldable pub grow : ℕ → ℕ → ℕ → ℕ
grow zero size required = size
grow (suc fuel) size required =
    let more = grow fuel (size * 2) required in if ltb size required then more else size

abbrev pub max : ℕ → ℕ → ℕ
max a b = if ltb a b then b else a

-- The size doubles from at least 128, so `required` rounds are enough.
unfoldable pub make_room_for : ℕ → Tracker → Tracker
unfolding new_buffer grow
make_room_for required t =
    if ltb (length t.buffer - t.position) required
    then if t.double_size_growth
      then new_buffer (grow required (max 128 (length t.buffer * 2)) required) t
      else new_buffer required t
    else t

-- Bytes written over those of a buffer.
abbrev pub splice : Buffer → ℕ → Buffer → Buffer
splice buf at bytes = take at buf ++ (bytes ++ drop (at + length bytes) buf)

-- What every write does once its value is encoded: room, the bytes, the position.
unfoldable pub put_bytes : Buffer → Tracker → Tracker
unfolding make_room_for
put_bytes bytes t =
    let r = make_room_for (length bytes) t in
    record r { buffer = splice r.buffer r.position bytes; position = r.position + length bytes }

-- The getter `data` closes the current buffer and returns the composite.
unfoldable pub data_of : Tracker → Tracker × Buffer
unfolding new_buffer
data_of t = let c = new_buffer 0 t in (c, c.composite_buffer)

abbrev pub Write : Type 0
Write = Tracker → Option Tracker

infixl 5 ◌>>◌
unfoldable pub ◌>>◌ : Write → Write → Write
◌>>◌ f g t = elim (f t) [ none ↦ none | some u ↦ g u ]

-- Node checks the range before it writes.
unfoldable pub checked : Bool → Buffer → Write
unfolding put_bytes
checked ok bytes t = if ok then some (put_bytes bytes t) else none

unfoldable pub copy_from : Buffer → Write
unfolding put_bytes
copy_from buffer t = some (put_bytes buffer t)

unfoldable pub write_buffer : Buffer → Write
unfolding put_bytes
write_buffer value t = some (put_bytes value t)

unfoldable pub write_uint8 : ℕ → Write
unfolding checked
write_uint8 value = checked (ltb value (256 ^ 1)) (to_le 1 value)

unfoldable pub write_uint16_le : ℕ → Write
unfolding checked
write_uint16_le value = checked (ltb value (256 ^ 2)) (to_le 2 value)

unfoldable pub write_ushort : ℕ → Write
unfolding write_uint16_le
write_ushort value = write_uint16_le value

unfoldable pub write_uint16_be : ℕ → Write
unfolding checked
write_uint16_be value = checked (ltb value (256 ^ 2)) (to_be 2 value)

-- No check: each byte is masked out of the value.
unfoldable pub write_uint24_le : ℕ → Write
unfolding put_bytes
write_uint24_le value t =
    some (put_bytes ((value % 256) ∷ (value / 2 ^ 8 % 256) ∷ (value / 2 ^ 16 % 256) ∷ []) t)

unfoldable pub write_uint32_le : ℕ → Write
unfolding checked
write_uint32_le value = checked (ltb value (256 ^ 4)) (to_le 4 value)

unfoldable pub write_uint32_be : ℕ → Write
unfolding checked
write_uint32_be value = checked (ltb value (256 ^ 4)) (to_be 4 value)

unfoldable pub write_big_uint64_le : ℕ → Write
unfolding checked
write_big_uint64_le value = checked (ltb value (256 ^ 8)) (to_le 8 value)

unfoldable pub write_uint64_le : ℕ → Write
unfolding write_big_uint64_le
write_uint64_le value = write_big_uint64_le value

-- -2 ^ (8 * w - 1) ≤ value < 2 ^ (8 * w - 1)
abbrev pub fits_signed : ℕ → ℤ → Bool
fits_signed w (pos n) = ltb n (256 ^ w / 2)
fits_signed w (negsuc n) = ltb n (256 ^ w / 2)

unfoldable pub write_int8 : ℤ → Write
unfolding checked
write_int8 value = checked (fits_signed 1 value) (to_le 1 (unsigned 1 value))

unfoldable pub write_int16_le : ℤ → Write
unfolding checked
write_int16_le value = checked (fits_signed 2 value) (to_le 2 (unsigned 2 value))

unfoldable pub write_int16_be : ℤ → Write
unfolding checked
write_int16_be value = checked (fits_signed 2 value) (to_be 2 (unsigned 2 value))

unfoldable pub write_int32_le : ℤ → Write
unfolding checked
write_int32_le value = checked (fits_signed 4 value) (to_le 4 (unsigned 4 value))

unfoldable pub write_int32_be : ℤ → Write
unfolding checked
write_int32_be value = checked (fits_signed 4 value) (to_be 4 (unsigned 4 value))

unfoldable pub write_big_int64_le : ℤ → Write
unfolding checked
write_big_int64_le value = checked (fits_signed 8 value) (to_le 8 (unsigned 8 value))

unfoldable pub write_int64_le : ℤ → Write
unfolding write_big_int64_le
write_int64_le value = write_big_int64_le value

-- `value & -1`: the low 32 bits, read as a signed number.
abbrev pub low_word : ℤ → ℕ
low_word (pos n) = n % 2 ^ 32
low_word (negsuc n) = 2 ^ 32 - 1 - n % 2 ^ 32

unfoldable pub low_int32 : ℤ → ℤ
unfolding signed
low_int32 value = signed 4 (low_word value)

-- Math.floor(value / 2 ^ 32)
unfoldable pub high_part : ℤ → ℤ
high_part (pos n) = pos (n / 2 ^ 32)
high_part (negsuc n) = negsuc (n / 2 ^ 32)

unfoldable pub write_uint40_le : ℕ → Write
unfolding write_int32_le write_uint8 low_int32 ◌>>◌
write_uint40_le value = do write_int32_le (low_int32 (pos value)); write_uint8 (value / 2 ^ 32)

-- Buffer.from(value, encoding)
unfoldable pub encode : Encoding → JsString → Buffer
unfolding ucs2_bytes utf8_bytes ascii_bytes
encode utf8_encoding value = utf8_bytes value
encode ucs2_encoding value = ucs2_bytes value
encode ascii_encoding value = ascii_bytes value

-- A missing encoding is the buffer's own.
abbrev pub or_own : Option Encoding → Tracker → Encoding
or_own none t = t.encoding
or_own (some e) t = e

unfoldable pub write_string : JsString → Option Encoding → Write
unfolding put_bytes encode
write_string value enc t = some (put_bytes (encode (or_own enc t) value) t)

unfoldable pub write_b_varchar : JsString → Option Encoding → Write
unfolding write_uint8 write_string ◌>>◌
write_b_varchar value enc = do write_uint8 (length value); write_string value enc

unfoldable pub write_us_varchar : JsString → Option Encoding → Write
unfolding write_uint16_le write_string ◌>>◌
write_us_varchar value enc = do write_uint16_le (length value); write_string value enc

-- `value instanceof Buffer`, or the string that `toString` gave.
pub data Chars : Type 0 where
  bytes : Buffer → Chars
  chars : JsString → Chars

abbrev pub bytes_of : Encoding → Chars → Buffer
bytes_of enc (bytes b) = b
bytes_of enc (chars s) = encode enc s

unfoldable pub write_us_varbyte : Chars → Option Encoding → Write
unfolding write_uint16_le write_buffer ◌>>◌
write_us_varbyte value enc t =
    let b = bytes_of (or_own enc t) value in (write_uint16_le (length b) >> write_buffer b) t

abbrev pub unknown_plp_len : Buffer
unknown_plp_len = 0xfe ∷ 0xff ∷ 0xff ∷ 0xff ∷ 0xff ∷ 0xff ∷ 0xff ∷ 0xff ∷ []

unfoldable pub write_plp_body : Chars → Option Encoding → Write
unfolding write_uint32_le write_buffer ◌>>◌
write_plp_body value enc t =
    let b = bytes_of (or_own enc t) value in
    let chunk = if ltb 0 (length b) then write_uint32_le (length b) >> write_buffer b else some in
    (write_buffer unknown_plp_len >> chunk >> write_uint32_le 0) t

-- The high half first.
unfoldable pub write_money : ℤ → Write
unfolding write_int32_le low_int32 high_part ◌>>◌
write_money value = do write_int32_le (high_part value); write_int32_le (low_int32 value)
