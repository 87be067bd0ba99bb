-- ===== src/Outgoing/Send.antt =====
-- `_write` from its first chunk to its 'end', for a message that is not cancelled.
use tedious.Prelude.{ℕ, ◌+◌, ◌-◌, ◌≤◌, ◌<◌, ◌≡◌, refl, sym, ap, ◌∙◌, Bool, false, some}
use tedious.Prelude.{
  List, [], ◌∷◌, ◌++◌, map, append-nil, append_assoc, arith, if◌then◌else◌, length, concat,
}
use tedious.Buffer.{Buffer}
use tedious.Packet.{◌>>=◌}
use tedious.Outgoing.{
  Message, Outgoing, chunk, push_last, drain, on_data, on_end, on_event, on_events, write_message,
}
use tedious.Outgoing.Packets.{last_packet-layout}
use tedious.Outgoing.Frames.{frames, frames_short, eventual, drain_total}

-- A packet size that makes room for data and fits the length field of a header, and a type of a byte.
pub record CanSend (packet_size : ℕ) (m : Message) : Type 0 where
  pub room : 9 ≤ packet_size
  pub fits : packet_size < 65536
  pub type_fits : m.type < 256
  pub kept : m.ignore ≡ false

-- The stream between two events of a message: less than a packet is buffered, and what is going to
-- be sent is settled by the bytes still to come.
record Flowing (m : Message) (packet_size : ℕ) (sent : Buffer → List Buffer) (t : Outgoing)
    : Type 0 where
  short : length t.bl ≤ packet_size - 8
  same_message : t.message ≡ m
  same_size : t.packet_size ≡ packet_size
  agrees : (future : Buffer) → eventual (packet_size - 8) t future ≡ sent future

on_data-drain :
    (bytes : Buffer) (s : Outgoing) {packet_size : ℕ}
    → s.message.ignore ≡ false
    → s.packet_size ≡ packet_size
    → on_data bytes s
      ≡ drain (length (s.bl ++ bytes)) (packet_size - 8) (record s { bl = s.bl ++ bytes })
unfolding on_data
on_data-drain bytes s kept size =
    ap
      (λ (b : Bool).
        if b
        then some s
        else drain (length (s.bl ++ bytes)) (s.packet_size - 8) (record s { bl = s.bl ++ bytes }))
      kept
    ∙ ap (λ n. drain (length (s.bl ++ bytes)) (n - 8) (record s { bl = s.bl ++ bytes })) size

module _ (m : Message) (packet_size : ℕ) (can : CanSend packet_size m) where
  chunk-Flowing :
      (sent : Buffer → List Buffer) (bytes : Buffer) (s : Outgoing)
      → Flowing m packet_size sent s
      → (t : Outgoing) × (on_data bytes s ≡ some t)
        × Flowing m packet_size (λ future. sent (bytes ++ future)) t
  chunk-Flowing sent bytes s f =
      let start : Outgoing = record s { bl = s.bl ++ bytes } in
      let (t, e, d) =
        drain_total (packet_size - 8) (omega (arith, can.room)) (omega (arith, can.fits, can.room))
          (length (s.bl ++ bytes)) start (rw f.same_message can.type_fits) (omega arith) in
      (
        t,
        on_data-drain bytes s (ap (λ (x : Message). x.ignore) f.same_message ∙ can.kept) f.same_size
            ∙ e,
        record {
          short = d.short;
          same_message = d.same_message ∙ f.same_message;
          same_size = d.same_size ∙ f.same_size;
          agrees = λ future.
              d.same_eventually future
              ∙ rw (append_assoc s.bl bytes future) (f.agrees (bytes ++ future));
        },
      )

  chunks-Flowing :
      (sent : Buffer → List Buffer) (cs : List Buffer) (s : Outgoing)
      → Flowing m packet_size sent s
      → (t : Outgoing) × (on_events (map chunk cs) s ≡ some t)
        × Flowing m packet_size (λ future. sent (concat cs ++ future)) t
  unfolding on_events on_event
  chunks-Flowing sent [] s f = (s, refl, f)
  chunks-Flowing sent (c ∷ cs) s f =
      let (t, e, g) = chunk-Flowing sent c s f in
      let (u, e', h) = chunks-Flowing (λ future. sent (c ++ future)) cs t g in
      (
        u,
        rw (e, ◌>>=◌) e',
        record {
          short = h.short;
          same_message = h.same_message;
          same_size = h.same_size;
          agrees = λ future. h.agrees future ∙ ap sent (sym (append_assoc c (concat cs) future));
        },
      )

  -- The last packet closes the message.
  end-Flowing :
      (sent : Buffer → List Buffer) (s : Outgoing)
      → Flowing m packet_size sent s
      → (t : Outgoing) × (on_end s ≡ some t)
        × (t.pushed ≡ sent [])
        × (t.bl ≡ [])
        × (t.packet_size ≡ packet_size)
  unfolding on_end
  end-Flowing sent s f = (
    _,
    ap (push_last s) (
        last_packet-layout s.message (s.packet_number + 1) s.bl (rw f.same_message can.type_fits)
          (omega arith) (omega (arith, f.short, can.fits, can.room))),
    ap (λ r. s.pushed ++ r)
          (sym (
            frames_short s.message (packet_size - 8) (omega (arith, can.room)) (length (s.bl ++ []))
              s.packet_number s.bl f.short))
        ∙ ap
            (λ b.
              s.pushed
              ++ frames s.message (packet_size - 8) (length (s.bl ++ [])) s.packet_number b)
            (sym (append-nil s.bl))
        ∙ f.agrees [],
    refl,
    f.same_size,
  )

-- On a stream with nothing buffered, for a message that is not cancelled, with a type of a byte and
-- a packet size from 9 to 65535: sending it in chunks of any sizes always ends, and pushes exactly
-- the packets of the concatenated payload behind what was pushed before; nothing stays buffered and
-- the packet size is kept.
pub write_message_lem :
    (s : Outgoing) (m : Message) (cs : List Buffer)
    → CanSend s.packet_size m
    → s.bl ≡ []
    → (t : Outgoing) × (write_message s m (map chunk cs) ≡ some t)
      × (t.pushed ≡ s.pushed ++ frames m (s.packet_size - 8) (length (concat cs)) 0 (concat cs))
      × (t.bl ≡ [])
      × (t.packet_size ≡ s.packet_size)
unfolding write_message
write_message_lem s m cs can empty =
    let start : Outgoing = record s { message = m; packet_number = 0 } in
    let (t, e, f) =
      chunks-Flowing m s.packet_size can (eventual (s.packet_size - 8) start) cs start (record {
        short = rw empty (omega arith);
        same_message = refl;
        same_size = refl;
        agrees = λ future. refl;
      }) in
    let (u, e', pushed, cleared, size) = end-Flowing m s.packet_size can _ t f in
    (u, rw (e, ◌>>=◌) e', pushed ∙ rw (empty, append-nil (concat cs)), cleared, size)
