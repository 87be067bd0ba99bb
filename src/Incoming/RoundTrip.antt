-- ===== src/Incoming/RoundTrip.antt =====
-- OutgoingMessageStream and IncomingMessageStream, one after the other.
use tedious.Prelude.{
  ℕ, zero, suc, ◌+◌, ◌-◌, ◌/◌, ◌%◌, ◌≤◌, ◌<◌, ◌≡◌, refl, sym, ap, ◌∙◌, Bool, true, false, not,
  bit_and, ◌==◌, Option, none, some, inl, inr, le_or_lt,
}
use tedious.Prelude.{
  List, [], ◌∷◌, ◌++◌, map, append_assoc, arith, ltb-false, leb-true, if◌then◌else◌, length,
  length-append, take, drop, concat, take-length-append, drop-length-append, take-append-drop,
  length-take, length-drop,
}
use tedious.Buffer.{Buffer, le, be}
use tedious.Packet.Layout.{layout, packet_type-packet_of, is_last-packet_of}
use tedious.Outgoing.{Message, Outgoing, chunk, write_message}
use tedious.Outgoing.Packets.{full_status, last_status}
use tedious.Outgoing.Frames.{frames, frames_short, frames_long}
use tedious.Outgoing.Send.{CanSend, write_message_lem}
use tedious.Incoming.{
  Received, Incoming, current_or, deliver, accept, consumed, sized, step, Outcome, ready, process,
  receive,
}
use tedious.Incoming.Steps.{step-sized}
use tedious.Incoming.Chunks.{run, process-suc, process_fuel, continue, IsIdle, receive-concat}

abbrev ends : ℕ → Bool
ends status = not (bit_and status 1 == 0)

accept-layout :
    (type status id : ℕ) (bytes : Buffer) (s : Incoming)
    → accept (layout type status id bytes) s
      ≡ some (deliver (ends status) bytes (current_or type s.current) s)
unfolding accept
accept-layout type status id bytes s = rw (
  packet_type-packet_of type status ((8 + length bytes) / 256) ((8 + length bytes) % 256) id bytes,
  is_last-packet_of type status ((8 + length bytes) / 256) ((8 + length bytes) % 256) id bytes,
)

-- A stream with this buffer, this message under way and these messages delivered.
abbrev at : Buffer → Option Received → List Received → Incoming
at bl cur out = record { bl = bl; current = cur; delivered = out }

-- A round on a whole packet with anything behind it.
step-layout :
    (type status id : ℕ) (bytes rest : Buffer) (cur : Option Received) (out : List Received)
    → 8 + length bytes < 65536
    → step (at (layout type status id bytes ++ rest) cur out)
      ≡ consumed (deliver (ends status) bytes (current_or type cur) (at rest cur out))
step-layout type status id bytes rest cur out fits =
    step-sized s (omega arith)
    ∙ ap (λ n. sized (some n) s) length_field
    ∙ rw (
      ltb-false (length packet) 8 (omega arith),
      leb-true (length packet) (length (packet ++ rest)) (omega (arith, length-append packet rest)),
      take-length-append packet rest,
      drop-length-append packet rest,
      accept-layout type status id bytes (at rest cur out),
    )
  where
    packet : Buffer
    packet = layout type status id bytes

    s : Incoming
    s = at (packet ++ rest) cur out

    length_field : be (take 2 (drop 2 (packet ++ rest))) ≡ length packet
    length_field = unfold be le in omega arith

-- The loop after a round that took a packet.
run-consumed : (s t : Incoming) → length t.bl < length s.bl → step s ≡ consumed t → run s ≡ run t
run-consumed s t h e =
    process-suc (length s.bl) s
    ∙ ap (continue (length s.bl) s) e
    ∙ process_fuel (length s.bl) (suc (length t.bl)) t h (omega arith)

ends-full_status : (m : Message) → ends (full_status m) ≡ false
ends-full_status m = by_flag m.reset_connection
  where
    by_flag : (r : Bool) → ends (if r then 8 else 0) ≡ false
    by_flag true = refl
    by_flag false = refl

ends-last_status : (m : Message) → ends (last_status m) ≡ true
ends-last_status m = by_flags m.reset_connection m.ignore
  where
    by_flags :
        (r i : Bool) → ends (if r then (if i then 11 else 9) else (if i then 3 else 1)) ≡ true
    by_flags true true = refl
    by_flags true false = refl
    by_flags false true = refl
    by_flags false false = refl

abbrev add_payload : Received → Buffer → Received
add_payload r bytes = record r { payload = r.payload ++ bytes }

module _ (m : Message) (size : ℕ) (room : 1 ≤ size) (fits : 8 + size < 65536) where
  last_received :
      (number : ℕ) (payload : Buffer) (cur : Option Received) (out : List Received)
      → length payload ≤ size
      → run (at (concat (layout m.type (last_status m) number payload ∷ [])) cur out)
        ≡ ready (at [] none (out ++ (add_payload (current_or m.type cur) payload ∷ [])))
  last_received number payload cur out h =
      run-consumed (at (layout m.type (last_status m) number payload ++ []) cur out)
        (at [] none (out ++ (add_payload (current_or m.type cur) payload ∷ []))) (omega arith)
        (step-layout m.type (last_status m) number payload [] cur out (omega arith)
          ∙ ap (λ b. consumed (deliver b payload (current_or m.type cur) (at [] cur out)))
              (ends-last_status m))
      ∙ (unfold process step in refl)

  -- A packet that is not the last adds its data to the message under way.
  full_received :
      (number : ℕ) (bytes rest : Buffer) (cur : Option Received) (out : List Received)
      → length bytes ≤ size
      → run (at (layout m.type (full_status m) number bytes ++ rest) cur out)
        ≡ run (at rest (some (add_payload (current_or m.type cur) bytes)) out)
  full_received number bytes rest cur out h =
      run-consumed (at (layout m.type (full_status m) number bytes ++ rest) cur out)
        (at rest (some (add_payload (current_or m.type cur) bytes)) out)
        (omega (arith, length-append (layout m.type (full_status m) number bytes) rest))
        (step-layout m.type (full_status m) number bytes rest cur out (omega arith)
          ∙ ap (λ b. consumed (deliver b bytes (current_or m.type cur) (at rest cur out)))
              (ends-full_status m))

  abbrev whole : Buffer → Option Received → List Received → Outcome
  whole payload cur out =
      ready (at [] none (out ++ (add_payload (current_or m.type cur) payload ∷ [])))

  frames_received :
      (k f number : ℕ) (payload : Buffer) (cur : Option Received) (out : List Received)
      → length payload ≤ k
      → length payload ≤ f
      → run (at (concat (frames m size f number payload)) cur out) ≡ whole payload cur out
  frames_received zero f number payload cur out hk hf =
      ap (λ ps. run (at (concat ps) cur out))
        (frames_short m size room f number payload (omega arith))
      ∙ last_received ((number + 1) % 256) payload cur out (omega arith)
  frames_received (suc k) f number payload cur out hk hf = elim (le_or_lt (length payload) size) [
    | inl short ↦
        ap (λ ps. run (at (concat ps) cur out)) (frames_short m size room f number payload short)
        ∙ last_received ((number + 1) % 256) payload cur out short
    | inr long ↦
        let r = current_or m.type cur in
        ap (λ ps. run (at (concat ps) cur out)) (frames_long m size room f number payload hf long)
        ∙ full_received ((number + 1) % 256) (take size payload) _ cur out
            (omega (arith, length-take size payload))
        ∙ frames_received k (length (drop size payload)) (number + 1) (drop size payload)
            (some (add_payload r (take size payload))) out (omega (arith, length-drop size payload))
            (omega arith)
        ∙ ap (λ p. ready (at [] none (out ++ (record { type = r.type; payload = p } ∷ []))))
            (append_assoc r.payload (take size payload) (drop size payload)
              ∙ ap (λ p. r.payload ++ p) (take-append-drop size payload))
  ]

IsIdle-empty : (out : List Received) → IsIdle (at [] none out)
unfolding process step
IsIdle-empty out = refl

-- The bytes that `_write` pushed on a stream with nothing buffered and nothing pushed, for a message
-- that is not cancelled, with a type of a byte and a packet size from 9 to 65535, received in chunks
-- of any sizes by a stream that is between messages, deliver exactly one more message, with the type
-- of the one sent and its payload; nothing stays buffered and no message is under way.
pub receive-write_message :
    (s : Outgoing) (m : Message) (cs ds : List Buffer) (out : List Received) (t : Outgoing)
    → CanSend s.packet_size m
    → s.bl ≡ []
    → s.pushed ≡ []
    → write_message s m (map chunk cs) ≡ some t
    → concat ds ≡ concat t.pushed
    → receive ds (record { bl = []; current = none; delivered = out })
      ≡ ready (record {
        bl = [];
        current = none;
        delivered = out ++ (record { type = m.type; payload = concat cs } ∷ []);
      })
receive-write_message s m cs ds out t can empty fresh sent same =
    receive-concat ds (at [] none out) (IsIdle-empty out)
    ∙ ap (λ b. run (at b none out)) (same ∙ ap concat pushed_frames)
    ∙ frames_received m (s.packet_size - 8) (omega (arith, can.room))
        (omega (arith, can.fits, can.room)) (length (concat cs)) (length (concat cs)) 0 (concat cs)
        none out (omega arith) (omega arith)
  where
    same_stream : {x y : Outgoing} → some x ≡ some y → x ≡ y
    same_stream e = cc

    pushed_frames : t.pushed ≡ frames m (s.packet_size - 8) (length (concat cs)) 0 (concat cs)
    pushed_frames =
        let (u, e, p, _, _) = write_message_lem s m cs can empty in
        ap (λ (x : Outgoing). x.pushed) (same_stream (sym sent ∙ e))
        ∙ p
        ∙ ap (λ f. f ++ frames m (s.packet_size - 8) (length (concat cs)) 0 (concat cs)) fresh
