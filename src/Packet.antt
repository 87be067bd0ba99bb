-- ===== src/Packet.antt =====
-- lib/packet.js: a TDS packet is the buffer of its 8-byte header and its data. A write that Node refuses
-- (a value that does not fit, or a place outside the buffer) is `none`.
pub mod Status
pub mod Layout
use tedious.Prelude.{
  ℕ, zero, suc, ◌+◌, ◌-◌, ◌%◌, ◌^◌, Bool, true, false, not, ◌&&◌, Option, none, some,
}
use tedious.Prelude.{
  List, [], ◌∷◌, ◌++◌, ltb, leb, ◌==◌, if◌then◌else◌, length, take, drop, replicate, bit_and,
  bit_or,
}
use tedious.Buffer.{Buffer, slice, le, be, to_le, to_be, read_at}

abbrev pub header_length : ℕ
header_length = 8

infixl 5 ◌>>=◌
abbrev pub ◌>>=◌ : {A B : Type 0} → Option A → (A → Option B) → Option B
none >>= f = none
some a >>= f = f a

-- buffer.writeUInt8(value, offset) and buffer.writeUInt16BE(value, offset)
unfoldable pub write_at : Buffer → ℕ → Buffer → Option Buffer
write_at bytes offset buf =
    if leb (offset + length bytes) (length buf)
    then some (take offset buf ++ (bytes ++ drop (offset + length bytes) buf))
    else none

unfoldable pub write_uint8_at : ℕ → ℕ → Buffer → Option Buffer
unfolding write_at to_le
write_uint8_at value offset buf =
    if ltb value 256 then write_at (to_le 1 value) offset buf else none

unfoldable pub write_uint16_be_at : ℕ → ℕ → Buffer → Option Buffer
unfolding write_at to_be
write_uint16_be_at value offset buf =
    if ltb value 65536 then write_at (to_be 2 value) offset buf else none

unfoldable pub set_length : Buffer → Option Buffer
unfolding write_uint16_be_at
set_length p = write_uint16_be_at (length p) 2 p

-- The constructor from a type.
unfoldable pub new_packet : ℕ → Option Buffer
unfolding write_uint8_at write_uint16_be_at set_length
new_packet type = do
  a ← write_uint8_at type 0 (replicate 8 0)
  b ← write_uint8_at Status.normal 1 a
  c ← write_uint16_be_at 0 4 b
  d ← write_uint8_at 1 6 c
  e ← write_uint8_at 0 7 d
  set_length e

unfoldable pub packet_length : Buffer → Option ℕ
unfolding read_at be
packet_length p = read_at 2 be p 2

unfoldable pub packet_type : Buffer → Option ℕ
unfolding read_at le
packet_type p = read_at 1 le p 0

-- A change of the status byte.
unfoldable pub with_status : (ℕ → ℕ) → Buffer → Option Buffer
unfolding read_at le write_uint8_at
with_status f p = do status ← read_at 1 le p 1; write_uint8_at (f status) 1 p

abbrev pub set_flag : Bool → ℕ → ℕ → ℕ
set_flag on flag status = if on then bit_or status flag else bit_and status (0xff - flag)

unfoldable pub reset_connection : Bool → Buffer → Option Buffer
unfolding with_status
reset_connection reset p = with_status (set_flag reset Status.reset_connection) p

-- `packet.last(value)`, without what it returns.
unfoldable pub last : Bool → Buffer → Option Buffer
unfolding with_status
last value p = with_status (set_flag value Status.eom) p

unfoldable pub ignore : Bool → Buffer → Option Buffer
unfolding with_status
ignore value p = with_status (set_flag value Status.ignore) p

unfoldable pub is_last : Buffer → Option Bool
unfolding read_at le
is_last p = do status ← read_at 1 le p 1; some (not (bit_and status Status.eom == 0))

-- `packet.packetId(id)`: an id of 0 is not written.
unfoldable pub packet_id : ℕ → Buffer → Option Buffer
unfolding write_uint8_at
packet_id id p = if id == 0 then some p else write_uint8_at (id % 256) 6 p

unfoldable pub add_data : Buffer → Buffer → Option Buffer
unfolding set_length
add_data bytes p = set_length (p ++ bytes)

unfoldable pub data_of : Buffer → Buffer
data_of p = drop header_length p

unfoldable pub is_packet_complete : Buffer → Option Bool
unfolding packet_length
is_packet_complete p =
    if ltb (length p) header_length
    then some false
    else (packet_length p >>= λ n. some (leb n (length p)))
