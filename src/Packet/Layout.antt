-- ===== src/Packet/Layout.antt =====
-- The bytes of the packets that the library builds, and what the readers see in them.
use native.Mathlib.Nat.{add-zero}
use tedious.Prelude.{ℕ, ◌+◌, ◌*◌, ◌/◌, ◌%◌, ◌≤◌, ◌<◌, ◌≡◌, refl, ap, not, some}
use tedious.Prelude.{[], ◌∷◌, ◌++◌, arith, ltb-true, ◌==◌, length, bit_and}
use tedious.Buffer.{Buffer}
use tedious.Packet.{
  new_packet, packet_id, with_status, add_data, data_of, packet_length, packet_type, is_last,
}

-- A buffer with the header written out: type, status, length in two bytes, SPID 0, id, window 0.
abbrev pub packet_of : ℕ → ℕ → ℕ → ℕ → ℕ → Buffer → Buffer
packet_of type status hi lo id bytes = type ∷ status ∷ hi ∷ lo ∷ 0 ∷ 0 ∷ id ∷ 0 ∷ bytes

-- A whole packet as the protocol lays it out: the length counts the header and the data.
abbrev pub layout : ℕ → ℕ → ℕ → Buffer → Buffer
layout type status id bytes =
    packet_of type status ((8 + length bytes) / 256) ((8 + length bytes) % 256) id bytes

module _ (type : ℕ) (h : type < 256) where
  pub new_packet-layout : new_packet type ≡ some (layout type 0 1 [])
  unfolding new_packet
  new_packet-layout =
      rw (ltb-true type 256 h) (ap (λ (t : ℕ). some (packet_of t 0 0 8 1 [])) (omega arith))

module _ (type status hi lo id : ℕ) (bytes : Buffer) where
  pub packet_id-packet_of :
      (n : ℕ)
      → 1 ≤ n
      → packet_id n (packet_of type status hi lo id bytes)
        ≡ some (packet_of type status hi lo (n % 256) bytes)
  unfolding packet_id
  packet_id-packet_of n h = ground arith

  pub with_status-packet_of :
      (f : ℕ → ℕ)
      → f status < 256
      → with_status f (packet_of type status hi lo id bytes)
        ≡ some (packet_of type (f status) hi lo id bytes)
  unfolding with_status
  with_status-packet_of f h = ground (arith, ap f (add-zero status))

  pub add_data-packet_of :
      (more : Buffer)
      → 8 + length (bytes ++ more) < 65536
      → add_data more (packet_of type status hi lo id bytes)
        ≡ some (layout type status id (bytes ++ more))
  unfolding add_data
  add_data-packet_of more h = ground arith

-- What a reader of `packet_of` sees.
module _ (type status hi lo id : ℕ) (bytes : Buffer) where
  pub packet_type-packet_of : packet_type (packet_of type status hi lo id bytes) ≡ some type
  unfolding packet_type
  packet_type-packet_of = ground arith

  pub packet_length-packet_of :
      packet_length (packet_of type status hi lo id bytes) ≡ some (256 * hi + lo)
  unfolding packet_length
  packet_length-packet_of = ground arith

  pub is_last-packet_of :
      is_last (packet_of type status hi lo id bytes) ≡ some (not (bit_and status 1 == 0))
  unfolding is_last
  is_last-packet_of = ground (arith, ap (λ (t : ℕ). bit_and t 1) (add-zero status))

  pub data_of-packet_of : data_of (packet_of type status hi lo id bytes) ≡ bytes
  unfolding data_of
  data_of-packet_of = refl
