-- ===== src/TrackingBuffer/Growth.antt =====
-- Room for a write in lib/tracking-buffer/writable-tracking-buffer.js: the position, and what was
-- written.
use tedious.Prelude.{
  ℕ, zero, suc, ◌+◌, ◌-◌, ◌*◌, ◌≤◌, ◌≡◌, refl, ap, ◌∙◌, Bool, true, false, [], ◌++◌,
}
use tedious.Prelude.{append-nil, append_assoc, arith, ltb-true, ltb-false, le_or_lt, inl, inr}
use tedious.Prelude.{
  length, take, drop, length-append, length-take, length-drop, length-replicate, take-length-append,
  if◌then◌else◌,
}
use tedious.Buffer.{Buffer}
use tedious.TrackingBuffer.{
  Tracker, Encoding, new_tracker, new_buffer, grow, max, make_room_for, splice, put_bytes, data_of,
}

-- What has been written so far.
unfoldable pub contents : Tracker → Buffer
contents t = t.composite_buffer ++ take t.position t.buffer

-- The position never passes the end of the current buffer.
abbrev pub IsValid : Tracker → Type 0
IsValid t = t.position ≤ length t.buffer

pub new_tracker-IsValid :
    (size : ℕ) (enc : Encoding) (double : Bool) → IsValid (new_tracker size enc double)
unfolding new_tracker
new_tracker-IsValid size enc double = omega arith

pub contents-new_tracker :
    (size : ℕ) (enc : Encoding) (double : Bool) → contents (new_tracker size enc double) ≡ []
unfolding contents new_tracker
contents-new_tracker size enc double = refl

pub contents-new_buffer : (size : ℕ) (t : Tracker) → contents (new_buffer size t) ≡ contents t
unfolding contents new_buffer
contents-new_buffer size t = append-nil _

grow-ge :
    (fuel size required : ℕ)
    → 1 ≤ size
    → required ≤ size + fuel
    → required ≤ grow fuel size required
unfolding grow
grow-ge zero size required h f = omega arith
grow-ge (suc fuel) size required h f = ground (arith, grow-ge fuel (size * 2) required)

length-new_buffer : (size : ℕ) (t : Tracker) → length (new_buffer size t).buffer ≡ size
unfolding new_buffer
length-new_buffer size t = length-replicate size 0

position-new_buffer : (size : ℕ) (t : Tracker) → (new_buffer size t).position ≡ 0
unfolding new_buffer
position-new_buffer size t = refl

-- Room that `make_room_for` leaves behind the position.
pub record HasRoom (required : ℕ) (t u : Tracker) : Type 0 where
  pub room : u.position + required ≤ length u.buffer
  pub kept : contents u ≡ contents t
  pub same_encoding : u.encoding ≡ t.encoding

new_buffer-HasRoom :
    (size required : ℕ) (t : Tracker) → required ≤ size → HasRoom required t (new_buffer size t)
new_buffer-HasRoom size required t h = record {
  room = omega (arith, length-new_buffer size t, position-new_buffer size t);
  kept = contents-new_buffer size t;
  same_encoding = unfold new_buffer in refl;
}

-- While the position is inside the buffer, both ways of growing leave the required room behind it,
-- the doubling loop included, and keep what was written.
pub make_room_for-HasRoom :
    (required : ℕ) (t : Tracker) → IsValid t → HasRoom required t (make_room_for required t)
unfolding make_room_for
make_room_for-HasRoom required t v = elim (le_or_lt required (length t.buffer - t.position)) [
  | inl fits ↦
      rw (ltb-false _ _ fits) (record { room = omega arith; kept = refl; same_encoding = refl })
  | inr short ↦ rw (ltb-true _ _ short) (grown t.double_size_growth)
]
  where
    grown :
        (double : Bool)
        → HasRoom required t (
            if double
            then new_buffer (grow required (max 128 (length t.buffer * 2)) required) t
            else new_buffer required t)
    grown true =
        new_buffer-HasRoom _ required t
          (grow-ge required (max 128 (length t.buffer * 2)) required (ground arith) (ground arith))
    grown false = new_buffer-HasRoom required required t (omega arith)

take-splice :
    (buf : Buffer) (at : ℕ) (bytes : Buffer)
    → at ≤ length buf
    → take (at + length bytes) (splice buf at bytes) ≡ take at buf ++ bytes
take-splice buf at bytes h =
    ap (λ n. take n (splice buf at bytes)) front
    ∙ rw (← append_assoc (take at buf) bytes (drop (at + length bytes) buf))
        (take-length-append (take at buf ++ bytes) (drop (at + length bytes) buf))
  where
    front : at + length bytes ≡ length (take at buf ++ bytes)
    front = omega (arith, length-append (take at buf) bytes, length-take at buf)

length-splice :
    (buf : Buffer) (at : ℕ) (bytes : Buffer)
    → at + length bytes ≤ length buf
    → length (splice buf at bytes) ≡ length buf
length-splice buf at bytes h = omega (
  arith,
  length-append (take at buf) (bytes ++ drop (at + length bytes) buf),
  length-append bytes (drop (at + length bytes) buf),
  length-take at buf,
  length-drop (at + length bytes) buf,
)

-- `u` is `t` with more bytes written behind.
pub record Appended (bytes : Buffer) (t u : Tracker) : Type 0 where
  pub valid : IsValid u
  pub written : contents u ≡ contents t ++ bytes
  pub same_encoding : u.encoding ≡ t.encoding

splice-Appended :
    (bytes : Buffer) (t r : Tracker)
    → HasRoom (length bytes) t r
    → Appended bytes t (record r {
      buffer = splice r.buffer r.position bytes;
      position = r.position + length bytes;
    })
unfolding contents
splice-Appended bytes t r h = record {
  valid = omega (arith, h.room, length-splice r.buffer r.position bytes h.room);
  written = rw (take-splice r.buffer r.position bytes (omega (arith, h.room))) (
      rw (← append_assoc r.composite_buffer (take r.position r.buffer) bytes)
        (ap (λ c. c ++ bytes) h.kept));
  same_encoding = h.same_encoding;
}

-- While the position is inside the buffer, every write appends: however the buffer grows, what was
-- written is kept with the new bytes behind it, and the position stays inside.
pub put_bytes-Appended :
    (bytes : Buffer) (t : Tracker) → IsValid t → Appended bytes t (put_bytes bytes t)
unfolding put_bytes
put_bytes-Appended bytes t v = splice-Appended bytes t _ (make_room_for-HasRoom (length bytes) t v)

-- The getter returns all that was written, and leaves a buffer to which writes still append.
pub data_of_lem :
    (t : Tracker)
    → ((data_of t).1 ≡ contents t) × (contents (data_of t).0 ≡ contents t) × IsValid (data_of t).0
unfolding data_of contents new_buffer
data_of_lem t = (refl, append-nil _, omega arith)
