-- ===== src/TrackingBuffer/Strings.antt =====
-- The layouts that the writes of strings and byte arrays append, and reading them back with the
-- readers of lib/token/helpers.js.
use tedious.Prelude.{◌^◌, ◌<◌, ◌≡◌, refl, sym, Option, some}
use tedious.Prelude.{
  [], ◌∷◌, ◌++◌, append-nil, append_assoc, arith, ltb, ltb-true, if◌then◌else◌, length,
  length-append,
}
use tedious.Buffer.{Buffer, JsString, to_le, ucs2_bytes}
use tedious.Read.{result, Read, read_b_var_char, read_us_var_char}
use tedious.Read.Complete.{Reads, b_var_char-Reads, us_var_char-Reads}
use tedious.TrackingBuffer.{
  Tracker, Encoding, ucs2_encoding, Write, ◌>>◌, write_buffer, write_uint32_le, encode, or_own,
  Chars, bytes_of, write_b_varchar, write_us_varchar, write_us_varbyte, write_plp_body,
  unknown_plp_len, data_of,
}
use tedious.TrackingBuffer.Growth.{IsValid, Appended, contents, data_of_lem}
use tedious.TrackingBuffer.Emits.{
  Emits, >>-Emits, write_buffer-Emits, write_uint8-Emits, write_uint16_le-Emits,
  write_uint32_le-Emits, write_string-Emits, Emits-of_eq,
}

pub write_b_varchar-Emits :
    (s : JsString)
    → length s < 256
    → Emits (write_b_varchar s (some ucs2_encoding)) (λ _. to_le 1 (length s) ++ ucs2_bytes s)
unfolding write_b_varchar
write_b_varchar-Emits s h =
    >>-Emits _ _ (write_uint8-Emits (length s) h)
      (unfold encode in write_string-Emits s ucs2_encoding)

pub write_us_varchar-Emits :
    (s : JsString)
    → length s < 65536
    → Emits (write_us_varchar s (some ucs2_encoding)) (λ _. to_le 2 (length s) ++ ucs2_bytes s)
unfolding write_us_varchar
write_us_varchar-Emits s h =
    >>-Emits _ _ (write_uint16_le-Emits (length s) h)
      (unfold encode in write_string-Emits s ucs2_encoding)

-- Emission where the bytes depend on the tracker's encoding.
write_us_varbyte-at :
    (value : Chars) (enc : Option Encoding) (t : Tracker)
    → length (bytes_of (or_own enc t) value) < 65536
    → IsValid t
    → (u : Tracker) × (write_us_varbyte value enc t ≡ some u)
      × Appended
          (to_le 2 (length (bytes_of (or_own enc t) value)) ++ bytes_of (or_own enc t) value)
          t
          u
unfolding write_us_varbyte
write_us_varbyte-at value enc t h v =
    (>>-Emits (λ _. to_le 2 (length b)) (λ _. b) (write_uint16_le-Emits (length b) h)
        (write_buffer-Emits b)).at
      t v
  where
    b : Buffer
    b = bytes_of (or_own enc t) value

-- One chunk unless the value is empty, behind the length "unknown" and before the terminator.
abbrev pub plp_chunks : Buffer → Buffer
plp_chunks [] = []
plp_chunks (x ∷ xs) = to_le 4 (length (x ∷ xs)) ++ (x ∷ xs)

nothing-Emits : Emits some (λ _. [])
nothing-Emits = record {
  at = λ t v. (
    t,
    refl,
    record { valid = v; written = sym (append-nil (contents t)); same_encoding = refl },
  );
}

chunk-Emits :
    (b : Buffer)
    → length b < 256 ^ 4
    → Emits
        (if ltb 0 (length b) then write_uint32_le (length b) >> write_buffer b else some)
        (λ _. plp_chunks b)
chunk-Emits [] h = nothing-Emits
chunk-Emits (x ∷ xs) h =
    rw (ltb-true 0 (length (x ∷ xs)) (omega arith))
      (>>-Emits _ _ (write_uint32_le-Emits (length (x ∷ xs)) h) (write_buffer-Emits (x ∷ xs)))

-- For a value of fewer than 2 ^ 32 bytes, `writePLPBody` succeeds and appends the PLP layout: the
-- unknown length, the value as one chunk (no chunk for an empty value), and the terminator.
pub write_plp_body_lem :
    (value : Chars) (enc : Option Encoding) (t : Tracker)
    → length (bytes_of (or_own enc t) value) < 256 ^ 4
    → IsValid t
    → (u : Tracker) × (write_plp_body value enc t ≡ some u)
      × Appended (unknown_plp_len ++ (plp_chunks (bytes_of (or_own enc t) value) ++ to_le 4 0)) t u
unfolding write_plp_body
write_plp_body_lem value enc t h v =
    (Emits-of_eq
        (>>-Emits (λ _. unknown_plp_len ++ plp_chunks b) (λ _. to_le 4 0)
          (>>-Emits (λ _. unknown_plp_len) (λ _. plp_chunks b) (write_buffer-Emits unknown_plp_len)
            (chunk-Emits b h))
          (write_uint32_le-Emits 0 (omega arith)))
        (λ _. append_assoc unknown_plp_len (plp_chunks b) (to_le 4 0))).at
      t v
  where
    b : Buffer
    b = bytes_of (or_own enc t) value

module _ {A : Type 0} {f : Write} {p : Read A} {b : Buffer} {a : A} where
  -- What a write appends, a reader that knows the layout reads back from the getter's `data`.
  write_then_read :
      Emits f (λ _. b)
      → Reads p b a
      → (t : Tracker) → IsValid t
      → (u : Tracker) × (f t ≡ some u)
        × (p (data_of u).1 (length (contents t)) ≡ result a (length (data_of u).1))
  write_then_read hf hp t v =
      let (u, e, x) = hf.at t v in
      (
        u,
        e,
        rw ((data_of_lem u).0, x.written, length-append (contents t) b)
            (rw (append-nil b) at (hp.at (contents t) [])),
      )

-- A string of fewer than 2 ^ 16 code units, written by `writeUsVarchar` in ucs2 behind anything, is
-- what `readUsVarChar` returns at that place of `data`; the offset is then the end of the data.
pub read_us_var_char-write_us_varchar :
    (s : JsString) (t : Tracker)
    → length s < 65536
    → IsValid t
    → (u : Tracker) × (write_us_varchar s (some ucs2_encoding) t ≡ some u)
      × (read_us_var_char (data_of u).1 (length (contents t)) ≡ result s (length (data_of u).1))
read_us_var_char-write_us_varchar s t h v =
    write_then_read (write_us_varchar-Emits s h) (us_var_char-Reads s h) t v

-- A string of fewer than 2 ^ 8 code units, written by `writeBVarchar` in ucs2 behind anything, is
-- what `readBVarChar` returns at that place of `data`; the offset is then the end of the data.
pub read_b_var_char-write_b_varchar :
    (s : JsString) (t : Tracker)
    → length s < 256
    → IsValid t
    → (u : Tracker) × (write_b_varchar s (some ucs2_encoding) t ≡ some u)
      × (read_b_var_char (data_of u).1 (length (contents t)) ≡ result s (length (data_of u).1))
read_b_var_char-write_b_varchar s t h v =
    write_then_read (write_b_varchar-Emits s h) (b_var_char-Reads s h) t v
