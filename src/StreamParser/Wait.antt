-- ===== src/StreamParser/Wait.antt =====
-- Reading with retries: `try { … } catch (NotEnoughDataError) { waitForChunk and again }`, the shape of the
-- read…Token methods and of the loops of lib/token/colmetadata-token-parser.js.
use tedious.Prelude.{ℕ, zero, suc}
use tedious.Read.{Read, Result, result, not_enough_data, thrown}
use tedious.StreamParser.{Parser, Outcome, ok, failed, unfinished, wait_for_chunk, at_position}

abbrev pub settle : {A : Type 0} → Result A → Parser → Outcome A → Outcome A
settle (result a offset) s again = ok a (at_position s offset)
settle (not_enough_data n) s again = again
settle (thrown e) s again = failed e

-- One call, and `fuel` more rounds after a wait each.
unfoldable pub retry : {A : Type 0} → ℕ → Read A → Parser → Outcome A
unfolding wait_for_chunk
retry zero p s = settle (p s.buffer s.position) s unfinished
retry (suc fuel) p s =
    let again = retry fuel p (wait_for_chunk s) in settle (p s.buffer s.position) s again
