-- ===== src/Outgoing.antt =====
-- lib/outgoing-message-stream.js with lib/message.js: a message written as chunks leaves as packets.
-- `none` is an exception of Node, or fuel that ran out.
pub mod Packets
pub mod Frames
pub mod Send
use tedious.Prelude.{ℕ, zero, suc, ◌+◌, ◌-◌, Bool, true, false, Option, none, some}
use tedious.Prelude.{List, [], ◌∷◌, ◌++◌, ltb, if◌then◌else◌, length, take, drop}
use tedious.Buffer.{Buffer}
use tedious.Packet.{
  ◌>>=◌, header_length, new_packet, packet_id, reset_connection, last, ignore, add_data,
}

-- What the stream reads of a Message. (Its bytes come as the events below.)
pub record Message : Type 0 where
  pub type : ℕ
  pub reset_connection : Bool
  pub ignore : Bool

-- The stream with the closure of `_write`: the buffered bytes, the packets pushed so far in order,
-- and the number of the last packet.
pub record Outgoing : Type 0 where
  pub packet_size : ℕ
  pub bl : Buffer
  pub message : Message
  pub packet_number : ℕ
  pub pushed : List Buffer

-- What happens to the message: a 'data' event, its `ignore` flag set when its request is cancelled.
pub data Event : Type 0 where
  chunk : Buffer → Event
  cancel : Event

unfoldable pub full_packet : Message → ℕ → Buffer → Option Buffer
unfolding new_packet packet_id reset_connection add_data
full_packet m number bytes = do
  a ← new_packet m.type
  b ← packet_id number a
  c ← reset_connection m.reset_connection b
  add_data bytes c

unfoldable pub last_packet : Message → ℕ → Buffer → Option Buffer
unfolding new_packet packet_id reset_connection last ignore add_data
last_packet m number bytes = do
  a ← new_packet m.type
  b ← packet_id number a
  c ← reset_connection m.reset_connection b
  d ← last true c
  e ← ignore m.ignore d
  add_data bytes e

abbrev push_full : Outgoing → ℕ → Option Buffer → Option Outgoing
push_full s size none = none
push_full s size (some p) = some (record s {
  bl = drop size s.bl;
  packet_number = s.packet_number + 1;
  pushed = s.pushed ++ (p ∷ []);
})

-- One round of `while (this.bl.length > length)`.
unfoldable pub push_packet : ℕ → Outgoing → Option Outgoing
unfolding full_packet
push_packet size s = push_full s size (full_packet s.message (s.packet_number + 1) (take size s.bl))

unfoldable pub drain : ℕ → ℕ → Outgoing → Option Outgoing
unfolding push_packet
drain zero size s = if ltb size (length s.bl) then none else some s
drain (suc fuel) size s =
    let rest = push_packet size s >>= drain fuel size in
    if ltb size (length s.bl) then rest else some s

-- The 'data' handler. Each round takes `packetSize - 8` bytes, so the buffered length is fuel enough.
unfoldable pub on_data : Buffer → Outgoing → Option Outgoing
unfolding drain
on_data bytes s =
    let t = record s { bl = s.bl ++ bytes } in
    if s.message.ignore then some s else drain (length t.bl) (s.packet_size - header_length) t

abbrev push_last : Outgoing → Option Buffer → Option Outgoing
push_last s none = none
push_last s (some p) =
    some (record s { bl = []; packet_number = s.packet_number + 1; pushed = s.pushed ++ (p ∷ []) })

-- The 'end' handler.
unfoldable pub on_end : Outgoing → Option Outgoing
unfolding last_packet
on_end s = push_last s (last_packet s.message (s.packet_number + 1) s.bl)

unfoldable pub on_event : Event → Outgoing → Option Outgoing
unfolding on_data
on_event (chunk bytes) s = on_data bytes s
on_event cancel s = some (record s { message = record s.message { ignore = true } })

unfoldable pub on_events : List Event → Outgoing → Option Outgoing
unfolding on_event
on_events [] s = some s
on_events (e ∷ es) s = on_event e s >>= on_events es

-- `_write(message)` with all that happens until its 'end'.
unfoldable pub write_message : Outgoing → Message → List Event → Option Outgoing
unfolding on_events on_end
write_message s m es = on_events es (record s { message = m; packet_number = 0 }) >>= on_end
