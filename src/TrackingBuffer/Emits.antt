-- ===== src/TrackingBuffer/Emits.antt =====
-- What each write appends, and when it is refused. A write is specified by the bytes that it appends
-- as a function of the tracker's own encoding, whatever room the buffer has left.
use tedious.Prelude.{ℕ, ◌/◌, ◌%◌, ◌^◌, ◌≤◌, ◌<◌, ◌≡◌, refl, ap, ◌∙◌, Bool, true, none, some}
use tedious.Prelude.{[], ◌∷◌, ◌++◌, append_assoc, arith, ltb-true, ltb-false}
use tedious.Prelude.Int.{ℤ}
use tedious.Buffer.{Buffer, JsString, to_le, to_be, unsigned}
use tedious.TrackingBuffer.{
  Tracker, Encoding, Write, ◌>>◌, checked, put_bytes, copy_from, write_buffer, write_uint8,
  write_uint16_le, write_ushort, write_uint16_be, write_uint24_le, write_uint32_le, write_uint32_be,
  write_big_uint64_le, write_int32_le, write_string, encode, fits_signed,
}
use tedious.TrackingBuffer.Growth.{IsValid, Appended, put_bytes-Appended, contents}

pub record Emits (f : Write) (bytes : Encoding → Buffer) : Type 0 where
  pub at :
      (t : Tracker) → IsValid t → (u : Tracker) × (f t ≡ some u) × Appended (bytes t.encoding) t u

pub bytes-Emits :
    (f : Write) (bytes : Buffer)
    → ((t : Tracker) → f t ≡ some (put_bytes bytes t))
    → Emits f (λ _. bytes)
bytes-Emits f bytes h = record {
  at = λ t v. (put_bytes bytes t, h t, put_bytes-Appended bytes t v);
}

pub write_buffer-Emits : (b : Buffer) → Emits (write_buffer b) (λ _. b)
unfolding write_buffer
write_buffer-Emits b = bytes-Emits (write_buffer b) b (λ t. refl)

pub copy_from-Emits : (b : Buffer) → Emits (copy_from b) (λ _. b)
unfolding copy_from
copy_from-Emits b = bytes-Emits (copy_from b) b (λ t. refl)

checked-Emits : (ok : Bool) (bytes : Buffer) → ok ≡ true → Emits (checked ok bytes) (λ _. bytes)
unfolding checked
checked-Emits ok bytes e = bytes-Emits (checked ok bytes) bytes (λ t. rw e)

module _ (v : ℕ) where
  pub write_uint8-Emits : v < 256 → Emits (write_uint8 v) (λ _. to_le 1 v)
  unfolding write_uint8
  write_uint8-Emits h = checked-Emits _ _ (ltb-true _ _ h)

  pub write_uint16_le-Emits : v < 65536 → Emits (write_uint16_le v) (λ _. to_le 2 v)
  unfolding write_uint16_le
  write_uint16_le-Emits h = checked-Emits _ _ (ltb-true _ _ h)

  pub write_ushort-Emits : v < 65536 → Emits (write_ushort v) (λ _. to_le 2 v)
  unfolding write_ushort
  write_ushort-Emits h = checked-Emits _ _ (ltb-true _ _ h)

  pub write_uint16_be-Emits : v < 65536 → Emits (write_uint16_be v) (λ _. to_be 2 v)
  unfolding write_uint16_be
  write_uint16_be-Emits h = checked-Emits _ _ (ltb-true _ _ h)

  pub write_uint24_le-Emits : Emits (write_uint24_le v) (λ _. to_le 3 v)
  unfolding write_uint24_le to_le
  write_uint24_le-Emits = bytes-Emits _ _ λ t. ap (λ (b : Buffer). some (put_bytes b t)) three_bytes
    where
      three_bytes :
          (v % 256) ∷ (v / 2 ^ 8 % 256) ∷ (v / 2 ^ 16 % 256) ∷ []
          ≡ (v % 256) ∷ (v / 256 % 256) ∷ (v / 256 / 256 % 256) ∷ []
      three_bytes = ground arith

  pub write_uint32_le-Emits : v < 256 ^ 4 → Emits (write_uint32_le v) (λ _. to_le 4 v)
  unfolding write_uint32_le
  write_uint32_le-Emits h = checked-Emits _ _ (ltb-true _ _ h)

  pub write_uint32_be-Emits : v < 256 ^ 4 → Emits (write_uint32_be v) (λ _. to_be 4 v)
  unfolding write_uint32_be
  write_uint32_be-Emits h = checked-Emits _ _ (ltb-true _ _ h)

  pub write_big_uint64_le-Emits : v < 256 ^ 8 → Emits (write_big_uint64_le v) (λ _. to_le 8 v)
  unfolding write_big_uint64_le
  write_big_uint64_le-Emits h = checked-Emits _ _ (ltb-true _ _ h)

pub write_int32_le-Emits :
    (v : ℤ) → fits_signed 4 v ≡ true → Emits (write_int32_le v) (λ _. to_le 4 (unsigned 4 v))
unfolding write_int32_le
write_int32_le-Emits v h = checked-Emits _ _ h

pub write_string-Emits :
    (s : JsString) (enc : Encoding) → Emits (write_string s (some enc)) (λ _. encode enc s)
unfolding write_string
write_string-Emits s enc = bytes-Emits _ _ (λ t. refl)

-- With no encoding given the tracker's own is used.
pub write_string_own-Emits : (s : JsString) → Emits (write_string s none) (λ enc. encode enc s)
unfolding write_string
write_string_own-Emits s = record {
  at = λ t v.
      (put_bytes (encode t.encoding s) t, refl, put_bytes-Appended (encode t.encoding s) t v);
}

Appended_trans :
    {a b : Buffer} {t u w : Tracker} → Appended a t u → Appended b u w → Appended (a ++ b) t w
Appended_trans {a} {b} {t} x y = record {
  valid = y.valid;
  written = y.written ∙ rw x.written (append_assoc (contents t) a b);
  same_encoding = y.same_encoding ∙ x.same_encoding;
}

-- Writes in a row append their bytes in that order.
pub >>-Emits :
    {f g : Write} (a b : Encoding → Buffer)
    → Emits f a
    → Emits g b
    → Emits (f >> g) (λ enc. a enc ++ b enc)
unfolding ◌>>◌
>>-Emits {f} {g} a b hf hg = record {
  at = λ t v.
      let (u, e, x) = hf.at t v in
      let (w, e', y) = hg.at u x.valid in
      (w, rw (e, ◌>>◌) e', Appended_trans x (rw (ap b x.same_encoding) at y));
}

pub Emits-of_eq :
    {f : Write} {a b : Encoding → Buffer}
    → Emits f a
    → ((enc : Encoding) → a enc ≡ b enc)
    → Emits f b
Emits-of_eq {f} {a} {b} h e = record {
  at = λ t v. let (u, p, x) = h.at t v in (u, p, rw (e t.encoding) at x);
}

-- A number that does not fit its width is refused, and nothing of the payload is sent.
pub write_refuses :
    (v : ℕ) (t : Tracker)
    → (256 ≤ v → write_uint8 v t ≡ none)
      × (256 ^ 2 ≤ v → write_uint16_le v t ≡ none)
      × (256 ^ 2 ≤ v → write_uint16_be v t ≡ none)
      × (256 ^ 4 ≤ v → write_uint32_le v t ≡ none)
      × (256 ^ 4 ≤ v → write_uint32_be v t ≡ none)
      × (256 ^ 8 ≤ v → write_big_uint64_le v t ≡ none)
unfolding write_uint8 write_uint16_le write_uint16_be write_uint32_le write_uint32_be
    write_big_uint64_le
write_refuses v t = (
  λ h. rw (ltb-false _ _ h),
  λ h. rw (ltb-false _ _ h),
  λ h. rw (ltb-false _ _ h),
  λ h. rw (ltb-false _ _ h),
  λ h. rw (ltb-false _ _ h),
  λ h. rw (ltb-false _ _ h),
)
