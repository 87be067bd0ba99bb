-- ===== src/Outgoing/Packets.antt =====
-- The packets that `_write` builds, byte by byte.
use tedious.Prelude.{ℕ, ◌+◌, ◌%◌, ◌≤◌, ◌<◌, ◌≡◌, Bool, true, false, some, [], if◌then◌else◌, length}
use tedious.Buffer.{Buffer}
use tedious.Packet.{◌>>=◌, reset_connection, last, ignore, add_data}
use tedious.Packet.Layout.{
  packet_of, layout, new_packet-layout, packet_id-packet_of, add_data-packet_of,
}
use tedious.Outgoing.{Message, full_packet, last_packet}

-- The status byte of a packet that is not the last, and of the last.
abbrev pub full_status : Message → ℕ
full_status m = if m.reset_connection then 8 else 0

abbrev pub last_status : Message → ℕ
last_status m =
    if m.reset_connection then (if m.ignore then 11 else 9) else (if m.ignore then 3 else 1)

module _ (m : Message) (number : ℕ) (bytes : Buffer) (type_fits : m.type < 256)
    (counted : 1 ≤ number) (fits : 8 + length bytes < 65536) where
  pub full_packet-layout :
      full_packet m number bytes ≡ some (layout m.type (full_status m) (number % 256) bytes)
  unfolding full_packet
  full_packet-layout =
      rw (new_packet-layout m.type type_fits, packet_id-packet_of m.type 0 0 8 1 [] number counted)
        (by_flag m.reset_connection)
    where
      by_flag :
          (r : Bool)
          → (reset_connection r (packet_of m.type 0 0 8 (number % 256) []) >>= add_data bytes)
            ≡ some (layout m.type (if r then 8 else 0) (number % 256) bytes)
      by_flag true = add_data-packet_of m.type 8 0 8 (number % 256) [] bytes fits
      by_flag false = add_data-packet_of m.type 0 0 8 (number % 256) [] bytes fits

  -- The packet built at the end of a message, for a type of a byte and a length that fits the header,
  -- is the header with the status bits of the message's flags, the number modulo 256, and the data.
  pub last_packet-layout :
      last_packet m number bytes ≡ some (layout m.type (last_status m) (number % 256) bytes)
  unfolding last_packet
  last_packet-layout =
      rw (new_packet-layout m.type type_fits, packet_id-packet_of m.type 0 0 8 1 [] number counted)
        (by_flags m.reset_connection m.ignore)
    where
      fresh : Buffer
      fresh = packet_of m.type 0 0 8 (number % 256) []

      by_flags :
          (r i : Bool)
          → (reset_connection r fresh >>= λ c. last true c >>= λ d. ignore i d >>= add_data bytes)
            ≡ some (
                layout m.type
                  (if r then (if i then 11 else 9) else (if i then 3 else 1))
                  (number % 256)
                  bytes)
      by_flags true true = add_data-packet_of m.type 11 0 8 (number % 256) [] bytes fits
      by_flags true false = add_data-packet_of m.type 9 0 8 (number % 256) [] bytes fits
      by_flags false true = add_data-packet_of m.type 3 0 8 (number % 256) [] bytes fits
      by_flags false false = add_data-packet_of m.type 1 0 8 (number % 256) [] bytes fits
