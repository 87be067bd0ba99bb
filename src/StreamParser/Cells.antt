-- ===== src/StreamParser/Cells.antt =====
-- readPLPStream of lib/value-parser.js, and the reading of one cell in the row parsers: with waits for chunks.
pub mod Agree
pub mod RoundTrip
use tedious.Prelude.{
  ℕ, zero, suc, ◌+◌, Option, none, some, List, [], ◌∷◌, ◌==◌, length, concat, if◌then◌else◌,
}
use tedious.Buffer.{Buffer, JsString}
use tedious.Collation.Codepages.{Codepage}
use tedious.Metadata.{Metadata, Options}
use tedious.Read.{read_uint32_le, read_big_uint64_le, unmatched_lengths}
use tedious.Value.{JsValue}
use tedious.Value.Cells.{is_plp_stream, read_value}
use tedious.Value.Plp.{take_bytes, total_length, is_unmatched, plp_value}
use tedious.StreamParser.{Parser, Outcome, ok, failed, unfinished, and_then}
use tedious.StreamParser.Wait.{retry}

-- The rounds are bounded by the bytes that are left, of which each round takes 4 at least.
abbrev pub bytes_left : Parser → ℕ
bytes_left s = length s.buffer + length (concat s.chunks)

module _ (fuel : ℕ) where
  -- `while (true)`: a chunk a round. `while (parser.buffer.length < parser.position + n) await waitForChunk()` is a
  -- reading that is tried again until `n` bytes are there.
  unfoldable pub read_chunks : ℕ → Parser → Outcome (List Buffer)
  unfolding retry read_uint32_le
  read_chunks zero s = unfinished
  read_chunks (suc rounds) s = and_then (retry fuel read_uint32_le s) λ chunk_length s.
      if chunk_length == 0
      then ok [] s
      else and_then (retry fuel (take_bytes chunk_length) s)
          λ chunk s. and_then (read_chunks rounds s) λ rest s. ok (chunk ∷ rest) s

  abbrev pub check_length : ℕ → List Buffer → Parser → Outcome (Option (List Buffer))
  check_length expected_length chunks s =
      if is_unmatched expected_length chunks
      then failed (unmatched_lengths expected_length (total_length chunks))
      else ok (some chunks) s

  -- readPLPStream(parser)
  unfoldable pub read_plp_stream : Parser → Outcome (Option (List Buffer))
  unfolding retry read_big_uint64_le read_chunks is_unmatched
  read_plp_stream s = and_then (retry fuel read_big_uint64_le s) λ expected_length s.
      if expected_length == 0xFFFFFFFFFFFFFFFF
      then ok none s
      else and_then (read_chunks (suc (bytes_left s)) s)
          λ chunks s. check_length expected_length chunks s

  module _ (decode : Codepage → Buffer → JsString) (options : Options) where
    -- `if (isPLPStream(metadata)) … else …` of the loops of the row parsers.
    unfoldable pub read_cell : Metadata → Parser → Outcome JsValue
    unfolding is_plp_stream read_plp_stream plp_value read_value retry
    read_cell m s =
        if is_plp_stream m
        then and_then (read_plp_stream s) (λ chunks s. ok (plp_value decode m chunks) s)
        else retry fuel (read_value decode options m) s
