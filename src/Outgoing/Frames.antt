-- ===== src/Outgoing/Frames.antt =====
-- What `_write` sends, independently of how the message arrives in chunks: the payload cut into
-- packets of `packetSize - 8` bytes, the last one with the rest and the flag EOM.
use tedious.Prelude.{
  ℕ, zero, suc, ◌+◌, ◌%◌, ◌≤◌, ◌<◌, ◌≡◌, refl, sym, ap, ◌∙◌, some, inl, inr, le_or_lt,
}
use tedious.Prelude.{
  List, [], ◌∷◌, ◌++◌, append_assoc, arith, ltb, ltb-true, ltb-false, if◌then◌else◌, length,
  length-append, take, drop, length-take, length-drop, take-append, drop-append,
}
use tedious.Buffer.{Buffer}
use tedious.Packet.Layout.{layout}
use tedious.Outgoing.{Message, Outgoing, push_packet, push_full, drain}
use tedious.Outgoing.Packets.{full_status, last_status, full_packet-layout}

-- The packets of a payload, after `number` packets; the payload's length is fuel enough.
unfoldable pub frames : Message → ℕ → ℕ → ℕ → Buffer → List Buffer
frames m size zero number payload = layout m.type (last_status m) ((number + 1) % 256) payload ∷ []
frames m size (suc fuel) number payload =
    let first = layout m.type (full_status m) ((number + 1) % 256) (take size payload) in
    let rest = frames m size fuel (number + 1) (drop size payload) in
    let all = layout m.type (last_status m) ((number + 1) % 256) payload ∷ [] in
    if ltb size (length payload) then first ∷ rest else all

module _ (m : Message) (size : ℕ) (room : 1 ≤ size) where
  frames_fuel :
      (f g number : ℕ) (payload : Buffer)
      → length payload ≤ f
      → length payload ≤ g
      → frames m size f number payload ≡ frames m size g number payload
  unfolding frames
  frames_fuel zero zero number payload hf hg = refl
  frames_fuel zero (suc g) number payload hf hg = rw (ltb-false size (length payload) (omega arith))
  frames_fuel (suc f) zero number payload hf hg = rw (ltb-false size (length payload) (omega arith))
  frames_fuel (suc f) (suc g) number payload hf hg = elim (le_or_lt (length payload) size) [
    | inl short ↦ rw (ltb-false size (length payload) short)
    | inr long ↦ rw (ltb-true size (length payload) long) (
        ap (λ r. layout m.type (full_status m) ((number + 1) % 256) (take size payload) ∷ r)
          (frames_fuel f g (number + 1) (drop size payload)
            (omega (arith, length-drop size payload)) (omega (arith, length-drop size payload))))
  ]

  pub frames_long :
      (f number : ℕ) (payload : Buffer)
      → length payload ≤ f
      → size < length payload
      → frames m size f number payload
        ≡ layout m.type (full_status m) ((number + 1) % 256) (take size payload)
          ∷ frames m size (length (drop size payload)) (number + 1) (drop size payload)
  frames_long zero number payload hf h = absurd (omega arith)
  frames_long (suc f) number payload hf h =
      unfold frames in
      rw (ltb-true size (length payload) h) (
        ap (λ r. layout m.type (full_status m) ((number + 1) % 256) (take size payload) ∷ r)
          (frames_fuel f (length (drop size payload)) (number + 1) (drop size payload)
            (omega (arith, length-drop size payload)) (omega arith)))

  pub frames_short :
      (f number : ℕ) (payload : Buffer)
      → length payload ≤ size
      → frames m size f number payload
        ≡ layout m.type (last_status m) ((number + 1) % 256) payload ∷ []
  unfolding frames
  frames_short zero number payload h = refl
  frames_short (suc f) number payload h = rw (ltb-false size (length payload) h)

-- All that will have been pushed once the bytes `future` have come and the message has ended.
abbrev pub eventual : ℕ → Outgoing → Buffer → List Buffer
eventual size s future =
    s.pushed ++ frames s.message size (length (s.bl ++ future)) s.packet_number (s.bl ++ future)

abbrev after_push : ℕ → Outgoing → Outgoing
after_push size s = record s {
  bl = drop size s.bl;
  packet_number = s.packet_number + 1;
  pushed =
      s.pushed
      ++ (layout s.message.type (full_status s.message) ((s.packet_number + 1) % 256)
            (take size s.bl)
          ∷ []);
}

module _ (size : ℕ) (room : 1 ≤ size) (fits : 8 + size < 65536) where
  push_packet_lem :
      (s : Outgoing)
      → s.message.type < 256
      → size < length s.bl
      → push_packet size s ≡ some (after_push size s)
  unfolding push_packet
  push_packet_lem s ht h = ap (push_full s size) (
      full_packet-layout s.message (s.packet_number + 1) (take size s.bl) ht (omega arith)
        (omega (arith, length-take size s.bl)))

  frames_first :
      (s : Outgoing) (future : Buffer)
      → size < length s.bl
      → eventual size s future ≡ eventual size (after_push size s) future
  frames_first s future h =
      ap (λ r. s.pushed ++ r)
        (frames_long s.message size room (length (s.bl ++ future)) s.packet_number (s.bl ++ future)
            (omega arith) (omega (arith, length-append s.bl future))
          ∙ rw (
            take-append size s.bl future (omega arith),
            drop-append size s.bl future (omega arith),
          ))
      ∙ sym (append_assoc s.pushed (first ∷ []) _)
    where
      first : Buffer
      first =
          layout s.message.type (full_status s.message) ((s.packet_number + 1) % 256)
            (take size s.bl)

  -- What the drain loop leaves behind: the stream it started from, less whole packets.
  pub record Drained (s t : Outgoing) : Type 0 where
    pub short : length t.bl ≤ size
    pub same_message : t.message ≡ s.message
    pub same_size : t.packet_size ≡ s.packet_size
    pub same_eventually : (future : Buffer) → eventual size t future ≡ eventual size s future

  pub drain_total :
      (fuel : ℕ) (s : Outgoing)
      → s.message.type < 256
      → length s.bl ≤ fuel
      → (t : Outgoing) × (drain fuel size s ≡ some t) × Drained s t
  unfolding drain
  drain_total zero s ht h = (
    s,
    rw (ltb-false size (length s.bl) (omega arith)),
    record {
      short = omega arith;
      same_message = refl;
      same_size = refl;
      same_eventually = λ f. refl;
    },
  )
  drain_total (suc fuel) s ht h = elim (le_or_lt (length s.bl) size) [
    | inl short ↦ (
      s,
      rw (ltb-false size (length s.bl) short),
      record { short = short; same_message = refl; same_size = refl; same_eventually = λ f. refl },
    )
    | inr long ↦
        let (t, e, d) =
          drain_total fuel (after_push size s) ht (omega (arith, length-drop size s.bl)) in
        (
          t,
          rw (ltb-true size (length s.bl) long, push_packet_lem s ht long) e,
          record {
            short = d.short;
            same_message = d.same_message;
            same_size = d.same_size;
            same_eventually = λ f. d.same_eventually f ∙ sym (frames_first s f long);
          },
        )
  ]
