-- ===== src/StreamParser/Cells/RoundTrip.antt =====
-- A PLP body as writePLPBody of lib/tracking-buffer/writable-tracking-buffer.js lays it out, read by readPLPStream of
-- lib/value-parser.js.
use mathlib.Core.Path.{subst}
use native.Mathlib.Nat.{zero-add}
use tedious.Prelude.{
  ℕ, suc, ◌-◌, ◌^◌, ◌≤◌, ◌<◌, ◌≡◌, refl, ap, ◌∙◌, false, some, List, [], ◌∷◌, ◌++◌, ◌==◌,
  append-nil, append_assoc, length, length-append, arith,
}
use tedious.Buffer.{Buffer, to_le}
use tedious.Buffer.Endian.{length-to_le}
use tedious.Read.{result, pure, ◌>>=◌, read_big_uint64_le}
use tedious.Read.Complete.{
  Reads, bind-Reads, pure-Reads, require-Reads, advance-Reads, uint32_le-Reads, big_uint64_le-Reads,
}
use tedious.TrackingBuffer.{unknown_plp_len}
use tedious.TrackingBuffer.Strings.{plp_chunks}
use tedious.Value.Plp.{take_bytes, whole_chunks, all_chunks, matched, is_unmatched, whole_plp}
use tedious.StreamParser.{Parser}
use tedious.StreamParser.Refine.{view, IsReady, Agrees, Implements}
use tedious.StreamParser.Cells.{read_plp_stream}
use tedious.StreamParser.Cells.Agree.{read_plp_stream-Implements}

-- What is read: a chunk, or none for no bytes.
abbrev pub chunks_of : Buffer → List Buffer
chunks_of [] = []
chunks_of (x ∷ xs) = (x ∷ xs) ∷ []

abbrev pub plp_layout : Buffer → Buffer
plp_layout b = unknown_plp_len ++ (plp_chunks b ++ to_le 4 0)

last_chunk-Reads : (rounds : ℕ) → Reads (whole_chunks (suc rounds)) (to_le 4 0) []
unfolding whole_chunks
last_chunk-Reads rounds =
    subst (λ (b : Buffer). Reads (whole_chunks (suc rounds)) b []) (append-nil (to_le 4 0))
      (bind-Reads _ 0 (uint32_le-Reads 0 (omega arith)) (pure-Reads []))

take_bytes-Reads : (b : Buffer) → Reads (take_bytes (length b)) b b
take_bytes-Reads b = require-Reads (length b) (omega arith) (advance-Reads b)

whole_chunks-Reads :
    (rounds : ℕ) (b : Buffer)
    → length b < 256 ^ 4
    → Reads (whole_chunks (suc (suc rounds))) (plp_chunks b ++ to_le 4 0) (chunks_of b)
unfolding whole_chunks
whole_chunks-Reads rounds [] h = last_chunk-Reads (suc rounds)
whole_chunks-Reads rounds (x ∷ xs) h =
    rw (append_assoc (to_le 4 (length (x ∷ xs))) (x ∷ xs) (to_le 4 0)) (
      bind-Reads _ (length (x ∷ xs)) (uint32_le-Reads (length (x ∷ xs)) h)
        (rw (not_zero (length xs)) (bind-Reads _ (x ∷ xs) (take_bytes-Reads (x ∷ xs)) rest)))
  where
    not_zero : (n : ℕ) → (suc n == 0) ≡ false
    not_zero n = ground arith

    rest :
        Reads
          (whole_chunks (suc rounds) >>= λ rest. pure ((x ∷ xs) ∷ rest))
          (to_le 4 0)
          ((x ∷ xs) ∷ [])
    rest =
        subst
          (λ (b : Buffer).
            Reads (whole_chunks (suc rounds) >>= λ rest. pure ((x ∷ xs) ∷ rest)) b ((x ∷ xs) ∷ []))
          (append-nil (to_le 4 0))
          (bind-Reads _ [] (last_chunk-Reads rounds) (pure-Reads ((x ∷ xs) ∷ [])))

all_chunks-Reads :
    (b : Buffer) → length b < 256 ^ 4 → Reads all_chunks (plp_chunks b ++ to_le 4 0) (chunks_of b)
unfolding all_chunks
all_chunks-Reads b h = record {
  at = λ front rest.
      let buf : Buffer = front ++ (plp_chunks b ++ to_le 4 0 ++ rest) in
      ap (λ n. whole_chunks n buf (length front)) (rounds front rest)
      ∙ (whole_chunks-Reads (length buf - 1) b h).at front rest;
}
  where
    rounds :
        (front rest : Buffer)
        → suc (length (front ++ (plp_chunks b ++ to_le 4 0 ++ rest)))
          ≡ suc (suc (length (front ++ (plp_chunks b ++ to_le 4 0 ++ rest)) - 1))
    rounds front rest = omega (
      arith,
      length-append front (plp_chunks b ++ to_le 4 0 ++ rest),
      length-append (plp_chunks b ++ to_le 4 0) rest,
      length-append (plp_chunks b) (to_le 4 0),
      length-to_le 4 0,
    )

unknown_plp_bytes : to_le 8 0xFFFFFFFFFFFFFFFE ≡ unknown_plp_len
unfolding to_le
unknown_plp_bytes = refl

whole_plp-Reads :
    (b : Buffer) → length b < 256 ^ 4 → Reads whole_plp (plp_layout b) (some (chunks_of b))
unfolding whole_plp matched is_unmatched
whole_plp-Reads b h = bind-Reads _ 0xFFFFFFFFFFFFFFFE unknown (
    subst
      (λ (x : Buffer).
        Reads (all_chunks >>= λ c. matched 0xFFFFFFFFFFFFFFFE c) x (some (chunks_of b)))
      (append-nil (plp_chunks b ++ to_le 4 0))
      (bind-Reads _ (chunks_of b) (all_chunks-Reads b h) (pure-Reads (some (chunks_of b)))))
  where
    unknown : Reads read_big_uint64_le unknown_plp_len 0xFFFFFFFFFFFFFFFE
    unknown =
        subst (λ (x : Buffer). Reads read_big_uint64_le x 0xFFFFFFFFFFFFFFFE) unknown_plp_bytes
          (big_uint64_le-Reads 0xFFFFFFFFFFFFFFFE (omega arith))

-- Where the unread bytes of a stream begin with the body that writePLPBody writes for fewer than 2 ^ 32
-- bytes, readPLPStream, with retries for every chunk of the stream, returns these bytes as one chunk (no
-- chunk for no bytes), and has consumed the body and nothing behind it, however the stream is cut.
pub read_plp_stream-plp_layout :
    (fuel : ℕ) (s : Parser) (b rest : Buffer)
    → view s ≡ plp_layout b ++ rest
    → length b < 256 ^ 4
    → IsReady s
    → length s.chunks ≤ fuel
    → Agrees s (result (some (chunks_of b)) (length (plp_layout b))) (read_plp_stream fuel s)
unfolding Implements
read_plp_stream-plp_layout fuel s b rest e h ready few =
    rw
      (ap (λ v. whole_plp v 0) e
        ∙ (whole_plp-Reads b h).at [] rest
        ∙ ap (result (some (chunks_of b))) (zero-add (length (plp_layout b))))
      at (read_plp_stream-Implements fuel s ready few)
