-- ===== src/Value/Plp.antt =====
-- What readPLPStream of lib/value-parser.js reads, from all the bytes at once: its specification. The loop itself,
-- which waits for chunks, is in StreamParser/Plp.
pub mod Stable
use tedious.Prelude.{
  ℕ, zero, suc, ◌+◌, Bool, not, ◌&&◌, Option, none, some, List, [], ◌∷◌, ◌==◌, if◌then◌else◌,
  length, concat,
}
use tedious.Prelude.Double.{to_double}
use tedious.Buffer.{Buffer, JsString, ucs2}
use tedious.Collation.{Collation}
use tedious.Collation.Codepages.{Codepage, utf8}
use tedious.DataType.{DataType, var_char, n_var_char, xml}
use tedious.Metadata.{Metadata, Options}
use tedious.Read.{
  Read, not_enough_data, pure, throw, ◌>>=◌, ◌>>◌, require, advance, read_uint32_le,
  read_big_uint64_le, unmatched_lengths,
}
use tedious.Value.{JsValue, js_null, js_string, bytes}
use tedious.Value.Strings.{codepage_or_utf8}
use tedious.Value.Cells.{is_plp_stream, read_value}

-- The bytes of a chunk, all at hand.
abbrev pub take_bytes : ℕ → Read Buffer
take_bytes n = do require n; advance n

-- Out of rounds.
abbrev pub starved : {A : Type 0} → Read A
starved buf offset = not_enough_data offset

-- Chunks up to the one of length 0; a round takes 4 bytes at least.
unfoldable pub whole_chunks : ℕ → Read (List Buffer)
unfolding read_uint32_le require advance ◌>>=◌ pure
whole_chunks zero = starved
whole_chunks (suc rounds) = read_uint32_le >>= λ chunk_length.
    let more : Read (List Buffer) = (do
      chunk ← take_bytes chunk_length
      rest ← whole_chunks rounds
      pure (chunk ∷ rest)) in
    if chunk_length == 0 then pure [] else more

unfoldable pub all_chunks : Read (List Buffer)
unfolding whole_chunks
all_chunks buf offset = whole_chunks (suc (length buf)) buf offset

-- `currentLength`
abbrev pub total_length : List Buffer → ℕ
total_length [] = 0
total_length (chunk ∷ rest) = length chunk + total_length rest

-- `expectedLength !== UNKNOWN_PLP_LEN && currentLength !== Number(expectedLength)`
unfoldable pub is_unmatched : ℕ → List Buffer → Bool
unfolding to_double
is_unmatched expected chunks =
    not (expected == 0xFFFFFFFFFFFFFFFE) && not (total_length chunks == to_double expected)

unfoldable pub matched : ℕ → List Buffer → Read (Option (List Buffer))
unfolding is_unmatched pure throw
matched expected chunks =
    if is_unmatched expected chunks
    then throw (unmatched_lengths expected (total_length chunks))
    else pure (some chunks)

unfoldable pub whole_plp : Read (Option (List Buffer))
unfolding read_big_uint64_le all_chunks matched ◌>>=◌ pure
whole_plp = do
  expected_length ← read_big_uint64_le
  if expected_length == 0xFFFFFFFFFFFFFFFF
      then pure none
      else do chunks ← all_chunks; matched expected_length chunks

-- `metadata.collation?.codepage ?? 'utf8'`
abbrev pub collation_codepage : Option Collation → Codepage
collation_codepage none = utf8
collation_codepage (some collation) = codepage_or_utf8 collation.codepage

module _ (decode : Codepage → Buffer → JsString) where
  abbrev pub joined_value : DataType → Option Collation → Buffer → JsValue
  joined_value n_var_char collation joined = js_string (ucs2 joined)
  joined_value xml collation joined = js_string (ucs2 joined)
  joined_value var_char collation joined = js_string (decode (collation_codepage collation) joined)
  joined_value t collation joined = bytes joined

  -- The value of a cell that is read by readPLPStream: besides those above isPLPStream takes VarBinary and UDT.
  unfoldable pub plp_value : Metadata → Option (List Buffer) → JsValue
  unfolding ucs2
  plp_value m none = js_null
  plp_value m (some chunks) = joined_value m.type m.collation (concat chunks)

  -- A cell, from all the bytes at once.
  unfoldable pub whole_cell : Options → Metadata → Read JsValue
  unfolding is_plp_stream whole_plp plp_value read_value ◌>>=◌ pure
  whole_cell options m =
      if is_plp_stream m
      then (whole_plp >>= λ chunks. pure (plp_value m chunks))
      else read_value decode options m
