-- ===== src/Tests/Streams.antt =====
-- Messages of lib/outgoing-message-stream.js and lib/incoming-message-stream.js on small inputs.
use tedious.Prelude.{◌≡◌, ◌≢◌, refl, false, none, some, List, [], ◌∷◌, ◌++◌, map, concat, arith}
use tedious.Buffer.{Buffer}
use tedious.Packet.Layout.{layout}
use tedious.Outgoing.{Message, Outgoing, chunk, write_message, last_packet}
use tedious.Outgoing.Packets.{last_status, last_packet-layout}
use tedious.Outgoing.Frames.{frames}
use tedious.Outgoing.Send.{CanSend, write_message_lem}
use tedious.Incoming.{new_incoming, receive, ready, out_of_fuel, thrown}
use tedious.Incoming.Chunks.{run, receive-concat, receive_total, new_incoming-IsIdle}
use tedious.Incoming.Steps.{extend}
use tedious.Incoming.RoundTrip.{receive-write_message}

-- A message of two packets of 12 bytes each at most.
abbrev batch : Message
batch = record { type = 1; reset_connection = false; ignore = false }

abbrev small_stream : Outgoing
small_stream = record { packet_size = 12; bl = []; message = batch; packet_number = 0; pushed = [] }

abbrev payload : List Buffer
payload = (1 ∷ 2 ∷ 3 ∷ []) ∷ (4 ∷ 5 ∷ 6 ∷ []) ∷ []

small_can : CanSend 12 batch
small_can = record { room = omega arith; fits = omega arith; type_fits = omega arith; kept = refl }

abbrev sent_packets : List Buffer
sent_packets =
    (1 ∷ 0 ∷ 0 ∷ 12 ∷ 0 ∷ 0 ∷ 1 ∷ 0 ∷ 1 ∷ 2 ∷ 3 ∷ 4 ∷ [])
    ∷ (1 ∷ 1 ∷ 0 ∷ 10 ∷ 0 ∷ 0 ∷ 2 ∷ 0 ∷ 5 ∷ 6 ∷ [])
    ∷ []

abbrev sent_stream : Outgoing
sent_stream = record {
  packet_size = 12;
  bl = [];
  message = batch;
  packet_number = 2;
  pushed = sent_packets;
}

small_sent : write_message small_stream batch (map chunk payload) ≡ some sent_stream
unfolding write_message
small_sent = refl

write_message_lem_example :
    (t : Outgoing) × (write_message small_stream batch (map chunk payload) ≡ some t)
    × (t.pushed ≡ [] ++ frames batch 4 6 0 (1 ∷ 2 ∷ 3 ∷ 4 ∷ 5 ∷ 6 ∷ []))
    × (t.bl ≡ [])
    × (t.packet_size ≡ 12)
write_message_lem_example = write_message_lem small_stream batch payload small_can refl

receive-write_message_example :
    receive ((concat sent_packets) ∷ []) (record { bl = []; current = none; delivered = [] })
    ≡ ready (record {
      bl = [];
      current = none;
      delivered = [] ++ (record { type = 1; payload = 1 ∷ 2 ∷ 3 ∷ 4 ∷ 5 ∷ 6 ∷ [] } ∷ []);
    })
receive-write_message_example =
    receive-write_message small_stream batch payload (concat sent_packets ∷ []) [] sent_stream
      small_can refl refl small_sent refl

abbrev split_once : List Buffer
split_once = (1 ∷ 1 ∷ 0 ∷ []) ∷ (10 ∷ 0 ∷ 0 ∷ 2 ∷ 0 ∷ 5 ∷ 6 ∷ []) ∷ []

abbrev split_twice : List Buffer
split_twice = (1 ∷ []) ∷ (1 ∷ 0 ∷ 10 ∷ 0 ∷ 0 ∷ 2 ∷ 0 ∷ 5 ∷ []) ∷ (6 ∷ []) ∷ []

receive-concat_example :
    receive split_once new_incoming ≡ run (extend new_incoming (concat split_once))
receive-concat_example = receive-concat split_once new_incoming new_incoming-IsIdle

receive_total_example :
    (receive split_once new_incoming ≢ out_of_fuel) × (receive split_once new_incoming ≢ thrown)
receive_total_example = receive_total split_once new_incoming new_incoming-IsIdle

last_packet-layout_example :
    last_packet batch 2 (5 ∷ 6 ∷ []) ≡ some (layout 1 (last_status batch) 2 (5 ∷ 6 ∷ []))
last_packet-layout_example =
    last_packet-layout batch 2 (5 ∷ 6 ∷ []) (omega arith) (omega arith) (omega arith)
