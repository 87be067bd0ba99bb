-- ===== src/Incoming.antt =====
-- lib/incoming-message-stream.js: bytes from the socket become packets, and packets become messages.
-- The waits for a message's 'end' and 'drain' only delay the loop: no chunk is accepted meanwhile,
-- and the loop goes on where it stopped, so they are not in the state.
pub mod Steps
pub mod Chunks
pub mod RoundTrip
use tedious.Prelude.{ℕ, zero, suc, ◌+◌, Bool, true, false, Option, none, some}
use tedious.Prelude.{List, [], ◌∷◌, ◌++◌, ltb, leb, if◌then◌else◌, length, take, drop}
use tedious.Buffer.{Buffer, be, read_at}
use tedious.Packet.{◌>>=◌, header_length, packet_type, is_last, data_of}

-- A message as far as its bytes have been written to it.
pub record Received : Type 0 where
  pub type : ℕ
  pub payload : Buffer

pub record Incoming : Type 0 where
  pub bl : Buffer
  pub current : Option Received
  -- The messages that have ended, oldest first.
  pub delivered : List Received

abbrev pub new_incoming : Incoming
new_incoming = record { bl = []; current = none; delivered = [] }

-- `message = this.currentMessage`, or a new message of the packet's type.
abbrev pub current_or : ℕ → Option Received → Received
current_or type none = record { type = type; payload = [] }
current_or type (some m) = m

abbrev pub deliver : Bool → Buffer → Received → Incoming → Incoming
deliver true bytes m s = record s {
  current = none;
  delivered = s.delivered ++ (record m { payload = m.payload ++ bytes } ∷ []);
}
deliver false bytes m s = record s { current = some (record m { payload = m.payload ++ bytes }) }

-- What is done with one packet. `none` is a RangeError.
unfoldable pub accept : Buffer → Incoming → Option Incoming
unfolding packet_type is_last data_of
accept packet s = do
  type ← packet_type packet
  ended ← is_last packet
  some (deliver ended (data_of packet) (current_or type s.current) s)

pub data Step : Type 0 where
  waiting failed crashed : Step
  consumed : Incoming → Step

abbrev pub accepted : Option Incoming → Step
accepted none = crashed
accepted (some s) = consumed s

abbrev pub sized : Option ℕ → Incoming → Step
sized none s = crashed
sized (some n) s =
    if ltb n header_length
    then failed
    else if leb n (length s.bl)
    then accepted (accept (take n s.bl) (record s { bl = drop n s.bl }))
    else waiting

-- One round of the loop of `processBufferedData`; `failed` is its ConnectionError.
unfoldable pub step : Incoming → Step
unfolding accept read_at be
step s = if ltb (length s.bl) header_length then waiting else sized (read_at 2 be s.bl 2) s

-- How the loop ends: the callback, the callback with an error, a thrown error, or no fuel.
pub data Outcome : Type 0 where
  ready : Incoming → Outcome
  rejected thrown out_of_fuel : Outcome

unfoldable pub process : ℕ → Incoming → Outcome
unfolding step
process zero s = out_of_fuel
process (suc fuel) s = elim (step s) [
  | waiting ↦ ready s
  | failed ↦ rejected
  | crashed ↦ thrown
  | consumed t ↦ process fuel t
]

-- `_transform(chunk)`. A packet has at least 8 bytes, so the buffered length is fuel enough.
unfoldable pub transform : Buffer → Incoming → Outcome
unfolding process
transform chunk s = let t = record s { bl = s.bl ++ chunk } in process (suc (length t.bl)) t

abbrev pub and_then : Outcome → (Incoming → Outcome) → Outcome
and_then (ready s) f = f s
and_then rejected f = rejected
and_then thrown f = thrown
and_then out_of_fuel f = out_of_fuel

-- After an error the stream is destroyed and takes no more chunks.
unfoldable pub receive : List Buffer → Incoming → Outcome
unfolding transform
receive [] s = ready s
receive (c ∷ cs) s = and_then (transform c s) (receive cs)
