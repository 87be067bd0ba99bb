-- ===== src/Payload/Layout.antt =====
-- The headers that lib/all-headers.js puts before a request.
use tedious.Prelude.{
  ℕ, ◌+◌, ◌^◌, ◌≤◌, ◌<◌, ◌≡◌, refl, ap, ◌∙◌, Bool, true, false, ◌&&◌, Option, none, some, [], ◌++◌,
  append_assoc, append-nil, length, length-append, ltb, leb, ltb-true, leb-true, arith,
  if◌then◌else◌,
}
use tedious.Buffer.{Buffer, to_le}
use tedious.Buffer.Endian.{length-to_le}
use tedious.TrackingBuffer.{
  Tracker, Encoding, Write, ◌>>◌, new_tracker, new_buffer, data_of, splice, write_uint16_le,
  write_uint32_le, write_buffer,
}
use tedious.TrackingBuffer.Growth.{
  IsValid, contents, data_of_lem, new_tracker-IsValid, contents-new_tracker,
}
use tedious.TrackingBuffer.Emits.{
  Emits, >>-Emits, write_buffer-Emits, write_uint16_le-Emits, write_uint32_le-Emits,
}
use tedious.Payload.{yielded, put_length, put_total_length, write_all_headers}

-- The headers behind their total length: one header of type 2 with its length.
abbrev pub header_layout : Buffer → ℕ → Buffer
header_layout txn_descriptor count = to_le 4 18 ++ to_le 2 2 ++ txn_descriptor ++ to_le 4 count

abbrev pub all_headers_layout : Buffer → ℕ → Buffer
all_headers_layout txn_descriptor count = to_le 4 22 ++ header_layout txn_descriptor count

-- What a tracker holds behind the headers.
pub record Holds (bytes : Buffer) (t u : Tracker) : Type 0 where
  pub valid : IsValid u
  pub held : contents u ≡ bytes
  pub same_encoding : u.encoding ≡ t.encoding

fits : (n : ℕ) → 4 ≤ n → n < 256 ^ 4 → (ltb n (256 ^ 4) && leb 4 n) ≡ true
fits n h k = rw (ltb-true n (256 ^ 4) k, leb-true 4 n h) refl

length-headed : (v : ℕ) (rest : Buffer) → length (to_le 4 v ++ rest) ≡ 4 + length rest
length-headed v rest = omega (arith, length-append (to_le 4 v) rest, length-to_le 4 v)

overwritten : (n : ℕ) (rest : Buffer) → splice (to_le 4 0 ++ rest) 0 (to_le 4 n) ≡ to_le 4 n ++ rest
unfolding to_le
overwritten n rest = refl

put_length_lem :
    (c : Tracker) (bytes rest : Buffer)
    → bytes ≡ to_le 4 0 ++ rest
    → 4 + length rest < 256 ^ 4
    → put_length c bytes ≡ some (record c { composite_buffer = to_le 4 (4 + length rest) ++ rest })
unfolding put_length
put_length_lem c bytes rest e h =
    ap (put_length c) e
    ∙ if_true _ _ _ (
        fits (length (to_le 4 0 ++ rest)) (omega (arith, length-headed 0 rest))
          (omega (arith, length-headed 0 rest)))
    ∙ ap (λ b. some (record c { composite_buffer = b }))
        (overwritten _ rest ∙ ap (λ n. to_le 4 n ++ rest) (length-headed 0 rest))
  where
    if_true : {A : Type 0} (b : Bool) (x y : A) → b ≡ true → (if b then x else y) ≡ x
    if_true b x y h = ap (λ b. if b then x else y) h

put_total_length_lem :
    (t : Tracker) (rest : Buffer)
    → contents t ≡ to_le 4 0 ++ rest
    → 4 + length rest < 256 ^ 4
    → (u : Tracker) × (put_total_length t ≡ some u) × Holds (to_le 4 (4 + length rest) ++ rest) t u
unfolding put_total_length contents data_of new_buffer
put_total_length_lem t rest e h = (
  record (data_of t).0 { composite_buffer = to_le 4 (4 + length rest) ++ rest },
  put_length_lem (data_of t).0 (data_of t).1 rest ((data_of_lem t).0 ∙ e) h,
  record { valid = omega arith; held = append-nil _; same_encoding = refl },
)

headers-Emits :
    (txn_descriptor : Buffer) (count : ℕ)
    → count < 256 ^ 4
    → Emits
        (write_uint32_le 0
          >> write_uint32_le 18
          >> write_uint16_le 2
          >> write_buffer txn_descriptor
          >> write_uint32_le count)
        (λ _. to_le 4 0 ++ to_le 4 18 ++ to_le 2 2 ++ txn_descriptor ++ to_le 4 count)
headers-Emits txn_descriptor count h =
    >>-Emits _ _
      (>>-Emits _ _
        (>>-Emits _ _
          (>>-Emits _ _ (write_uint32_le-Emits 0 (omega arith))
            (write_uint32_le-Emits 18 (omega arith)))
          (write_uint16_le-Emits 2 (omega arith)))
        (write_buffer-Emits txn_descriptor))
      (write_uint32_le-Emits count h)

first_apart : (a b c d e : Buffer) → a ++ b ++ c ++ d ++ e ≡ a ++ (b ++ c ++ d ++ e)
first_apart a b c d e =
    ap (λ x. x ++ d ++ e) (append_assoc a b c)
    ∙ ap (λ x. x ++ e) (append_assoc a (b ++ c) d)
    ∙ append_assoc a (b ++ c ++ d) e

length-header_layout :
    (txn_descriptor : Buffer) (count : ℕ)
    → length txn_descriptor ≡ 8
    → length (header_layout txn_descriptor count) ≡ 18
length-header_layout txn_descriptor count h = omega (
  arith,
  length-append (to_le 4 18 ++ to_le 2 2 ++ txn_descriptor) (to_le 4 count),
  length-append (to_le 4 18 ++ to_le 2 2) txn_descriptor,
  length-append (to_le 4 18) (to_le 2 2),
  length-to_le 4 18,
  length-to_le 2 2,
  length-to_le 4 count,
)

in_turn :
    (f g : Write) (t u : Tracker) {r : Option Tracker} → f t ≡ some u → g u ≡ r → (f >> g) t ≡ r
unfolding ◌>>◌
in_turn f g t u e e' = rw (e, ◌>>◌) e'

module _ (txn_descriptor : Buffer) (count : ℕ) (eight : length txn_descriptor ≡ 8)
    (fits : count < 256 ^ 4) where
  write_all_headers_lem :
      (t : Tracker)
      → IsValid t
      → contents t ≡ []
      → (u : Tracker) × (write_all_headers txn_descriptor count t ≡ some u)
        × Holds (all_headers_layout txn_descriptor count) t u
  unfolding write_all_headers
  write_all_headers_lem t v e =
      let (u, x, a) = (headers-Emits txn_descriptor count fits).at t v in
      let (w, y, h) =
        put_total_length_lem u (header_layout txn_descriptor count)
          (a.written
            ∙ ap
                (λ c.
                  c ++ (to_le 4 0 ++ to_le 4 18 ++ to_le 2 2 ++ txn_descriptor ++ to_le 4 count))
                e
            ∙ first_apart (to_le 4 0) (to_le 4 18) (to_le 2 2) txn_descriptor (to_le 4 count))
          (omega (arith, length-header_layout txn_descriptor count eight)) in
      (
        w,
        in_turn
            (write_uint32_le 0
              >> write_uint32_le 18
              >> write_uint16_le 2
              >> write_buffer txn_descriptor
              >> write_uint32_le count)
            put_total_length t u x y,
        record {
          valid = h.valid;
          held = h.held ∙ ap (λ n. to_le 4 n ++ header_layout txn_descriptor count) total;
          same_encoding = h.same_encoding ∙ a.same_encoding;
        },
      )
    where
      total : 4 + length (header_layout txn_descriptor count) ≡ 22
      total = omega (arith, length-header_layout txn_descriptor count eight)

  -- What is yielded of the headers and of what is written behind them.
  pub yielded-headers :
      (size : ℕ) (enc : Encoding)
      → yielded (write_all_headers txn_descriptor count (new_tracker size enc false))
        ≡ some (all_headers_layout txn_descriptor count)
  yielded-headers size enc =
      let (u, x, h) =
        write_all_headers_lem (new_tracker size enc false) (new_tracker-IsValid size enc false)
          (contents-new_tracker size enc false) in
      ap yielded x ∙ ap some ((data_of_lem u).0 ∙ h.held)

  pub yielded-behind :
      (size : ℕ) (enc : Encoding) (f : Write) (bytes : Buffer)
      → Emits f (λ _. bytes)
      → yielded ((write_all_headers txn_descriptor count >> f) (new_tracker size enc false))
        ≡ some (all_headers_layout txn_descriptor count ++ bytes)
  yielded-behind size enc f bytes emits =
      let (u, x, h) =
        write_all_headers_lem (new_tracker size enc false) (new_tracker-IsValid size enc false)
          (contents-new_tracker size enc false) in
      let (w, y, a) = emits.at u h.valid in
      ap yielded
        (in_turn (write_all_headers txn_descriptor count) f (new_tracker size enc false) u x y)
      ∙ ap some ((data_of_lem w).0 ∙ a.written ∙ ap (λ b. b ++ bytes) h.held)

  -- A write that is refused behind the headers.
  pub yielded-refused :
      (size : ℕ) (enc : Encoding) (f : Write)
      → ((u : Tracker) → f u ≡ none)
      → yielded ((write_all_headers txn_descriptor count >> f) (new_tracker size enc false)) ≡ none
  yielded-refused size enc f refuses =
      let (u, x, h) =
        write_all_headers_lem (new_tracker size enc false) (new_tracker-IsValid size enc false)
          (contents-new_tracker size enc false) in
      ap yielded (
        in_turn (write_all_headers txn_descriptor count) f (new_tracker size enc false) u x
          (refuses u))
