-- ===== src/Collation/RoundTrip.antt =====
-- Collation.fromBuffer and toBuffer of lib/collation.js, one after the other.
use tedious.Prelude.{
  ℕ, ◌+◌, ◌*◌, ◌/◌, ◌%◌, ◌^◌, ◌<◌, ◌≡◌, ap, ◌∙◌, some, [], ◌∷◌, bit_and, bit_or, arith,
}
use tedious.Prelude.Bits.{low_nibble, high_nibble, low_byte, low_four, bit_or_disjoint}
use tedious.Collation.{new_collation, from_buffer, to_buffer}

ap₂ : {A B C : Type 0} (f : A → B → C) {a a' : A} {b b' : B} → a ≡ a' → b ≡ b' → f a b ≡ f a' b'
ap₂ f p q = cc

five :
    {a b c d e a' b' c' d' e' : ℕ}
    → a ≡ a'
    → b ≡ b'
    → c ≡ c'
    → d ≡ d'
    → e ≡ e'
    → a ∷ b ∷ c ∷ d ∷ e ∷ [] ≡ a' ∷ b' ∷ c' ∷ d' ∷ e' ∷ []
five p q r s t = cc

four :
    {a b c d a' b' c' d' : ℕ}
    → a ≡ a'
    → b ≡ b'
    → c ≡ c'
    → d ≡ d'
    → new_collation a b c (some d) ≡ new_collation a' b' c' (some d')
four p q r s = cc

lcid_lem :
    (b0 b1 b2 : ℕ)
    → b0 < 256
    → b1 < 256
    → b2 < 256
    → bit_or (bit_or (bit_and b2 0x0f * 2 ^ 16) (b1 * 2 ^ 8)) b0
      ≡ b2 % 16 * 2 ^ 16 + b1 * 2 ^ 8 + b0
lcid_lem b0 b1 b2 h0 h1 h2 =
    ap (λ t. bit_or (bit_or (t * 2 ^ 16) (b1 * 2 ^ 8)) b0) (low_nibble b2 h2)
    ∙ ap (λ t. bit_or t b0) (bit_or_disjoint 16 (b2 % 16) (b1 * 2 ^ 8) (omega arith) ∙ whole)
    ∙ bit_or_disjoint 8 (b2 % 16 * 2 ^ 8 + b1) b0 (omega arith)
    ∙ omega arith
  where
    whole : b2 % 16 * 2 ^ 16 + b1 * 2 ^ 8 ≡ (b2 % 16 * 2 ^ 8 + b1) * 2 ^ 8
    whole = omega arith

flags_lem :
    (b2 b3 : ℕ)
    → b2 < 256
    → b3 < 256
    → bit_or (bit_and b3 0x0f * 2 ^ 4) (bit_and b2 0xf0 / 2 ^ 4) ≡ b3 % 16 * 2 ^ 4 + b2 / 16
flags_lem b2 b3 h2 h3 =
    ap₂ (λ s t. bit_or (s * 2 ^ 4) (t / 2 ^ 4)) (low_nibble b3 h3) (high_nibble b2 h2)
    ∙ bit_or_disjoint 4 (b3 % 16) (b2 / 16 * 16 / 2 ^ 4) (omega arith)
    ∙ omega arith

version_lem : (b3 : ℕ) → b3 < 256 → bit_and b3 0xf0 / 2 ^ 4 ≡ b3 / 16
version_lem b3 h3 = omega (arith, high_nibble b3 h3)

from_buffer_lem :
    (b0 b1 b2 b3 b4 : ℕ)
    → b0 < 256
    → b1 < 256
    → b2 < 256
    → b3 < 256
    → from_buffer (b0 ∷ b1 ∷ b2 ∷ b3 ∷ b4 ∷ [])
      ≡ new_collation
          (b2 % 16 * 2 ^ 16 + b1 * 2 ^ 8 + b0)
          (b3 % 16 * 2 ^ 4 + b2 / 16)
          (b3 / 16)
          (some b4)
unfolding from_buffer
from_buffer_lem b0 b1 b2 b3 b4 h0 h1 h2 h3 =
    ap₂ (λ s t. new_collation s t (bit_and b3 0xf0 / 2 ^ 4) (some b4)) (lcid_lem b0 b1 b2 h0 h1 h2)
      (flags_lem b2 b3 h2 h3)
    ∙ ap
        (λ t.
          new_collation (b2 % 16 * 2 ^ 16 + b1 * 2 ^ 8 + b0) (b3 % 16 * 2 ^ 4 + b2 / 16) t
            (some b4))
        (version_lem b3 h3)

-- What toBuffer writes, without the masks.
to_buffer_lem :
    (lcid flags version id : ℕ)
    → flags < 256
    → to_buffer (new_collation lcid flags version (some id))
      ≡ (lcid % 256)
        ∷ (lcid / 2 ^ 8 % 256)
        ∷ (flags % 16 * 2 ^ 4 + lcid / 2 ^ 16 % 16)
        ∷ (version % 16 * 2 ^ 4 + flags / 16)
        ∷ (id % 256)
        ∷ []
unfolding to_buffer new_collation
to_buffer_lem lcid flags version id h =
    five (low_byte lcid) (low_byte (lcid / 2 ^ 8)) third fourth (low_byte id)
  where
    third :
        bit_or (bit_and flags 0x0f * 2 ^ 4) (bit_and (lcid / 2 ^ 16) 0x0f)
        ≡ flags % 16 * 2 ^ 4 + lcid / 2 ^ 16 % 16
    third =
        ap₂ (λ s t. bit_or (s * 2 ^ 4) t) (low_four flags) (low_four (lcid / 2 ^ 16))
        ∙ bit_or_disjoint 4 (flags % 16) (lcid / 2 ^ 16 % 16) (omega arith)

    fourth :
        bit_or (bit_and version 0x0f * 2 ^ 4) (bit_and flags 0xf0 / 2 ^ 4)
        ≡ version % 16 * 2 ^ 4 + flags / 16
    fourth =
        ap₂ (λ s t. bit_or (s * 2 ^ 4) (t / 2 ^ 4)) (low_four version) (high_nibble flags h)
        ∙ bit_or_disjoint 4 (version % 16) (flags / 16 * 16 / 2 ^ 4) (omega arith)
        ∙ omega arith

-- Reading five bytes into a collation and writing the collation gives the five bytes back.
pub to_buffer-from_buffer :
    (b0 b1 b2 b3 b4 : ℕ)
    → b0 < 256
    → b1 < 256
    → b2 < 256
    → b3 < 256
    → b4 < 256
    → to_buffer (from_buffer (b0 ∷ b1 ∷ b2 ∷ b3 ∷ b4 ∷ [])) ≡ b0 ∷ b1 ∷ b2 ∷ b3 ∷ b4 ∷ []
to_buffer-from_buffer b0 b1 b2 b3 b4 h0 h1 h2 h3 h4 =
    ap to_buffer (from_buffer_lem b0 b1 b2 b3 b4 h0 h1 h2 h3)
    ∙ to_buffer_lem lcid flags (b3 / 16) b4 (omega arith)
    ∙ five (omega arith) (omega arith) (omega arith) (omega arith) (omega arith)
  where
    lcid : ℕ
    lcid = b2 % 16 * 2 ^ 16 + b1 * 2 ^ 8 + b0

    flags : ℕ
    flags = b3 % 16 * 2 ^ 4 + b2 / 16

-- Writing a collation whose fields fit their 20, 8, 4 and 8 bits and reading it gives the collation.
pub from_buffer-to_buffer :
    (lcid flags version id : ℕ)
    → lcid < 2 ^ 20
    → flags < 256
    → version < 16
    → id < 256
    → from_buffer (to_buffer (new_collation lcid flags version (some id)))
      ≡ new_collation lcid flags version (some id)
from_buffer-to_buffer lcid flags version id hl hf hv hi =
    ap from_buffer (to_buffer_lem lcid flags version id hf)
    ∙ from_buffer_lem b0 b1 b2 b3 b4 (omega arith) (omega arith) (omega arith) (omega arith)
    ∙ four (omega arith) (omega arith) (omega arith) (omega arith)
  where
    b0 : ℕ
    b0 = lcid % 256

    b1 : ℕ
    b1 = lcid / 2 ^ 8 % 256

    b2 : ℕ
    b2 = flags % 16 * 2 ^ 4 + lcid / 2 ^ 16 % 16

    b3 : ℕ
    b3 = version % 16 * 2 ^ 4 + flags / 16

    b4 : ℕ
    b4 = id % 256
