-- ===== src/StreamParser.antt =====
-- class Parser of lib/token/stream-parser.js. The iterable is the list of the chunks that are still to come.
pub mod Wait
pub mod Cells
pub mod Refine
pub mod Tokens
pub mod Whole
pub mod Rows
pub mod Reading
pub mod Chunks
pub mod Exhausted
use tedious.Prelude.{
  ℕ, zero, suc, ◌+◌, Bool, true, false, Option, none, some, List, [], ◌∷◌, ◌++◌, drop, ltb, leb,
  ◌==◌, ◌&&◌, length, if◌then◌else◌,
}
use tedious.Buffer.{Buffer}
use tedious.Metadata.{Options}
use tedious.Token.{Token, ColumnMetadata}
use tedious.Read.{Read, Result, result, not_enough_data, thrown, Error}

-- The fields that change, without the debug log. `waited` records whether waitForChunk has been called since
-- the token began: then readToken has returned a promise.
pub record Parser : Type 0 where
  pub buffer : Buffer
  pub position : ℕ
  pub chunks : List Buffer
  pub columns : List ColumnMetadata
  pub waited : Bool

-- new Parser(iterable, debug, options)
unfoldable pub new_parser : List Buffer → List ColumnMetadata → Parser
new_parser chunks columns = record {
  buffer = [];
  position = 0;
  chunks = chunks;
  columns = columns;
  waited = false;
}

abbrev pub with_buffer : Parser → Buffer → List Buffer → Parser
with_buffer s buffer chunks = record {
  buffer = buffer;
  position = 0;
  chunks = chunks;
  columns = s.columns;
  waited = true;
}

abbrev pub take_chunk : Parser → List Buffer → Parser
take_chunk s [] = record {
  buffer = s.buffer;
  position = s.position;
  chunks = [];
  columns = s.columns;
  waited = true;
}
take_chunk s (chunk ∷ rest) =
    with_buffer s
      (if s.position == length s.buffer then chunk else drop s.position s.buffer ++ chunk) rest

-- parser.waitForChunk(); that it returns -1 is told by `s.chunks` being empty.
unfoldable pub wait_for_chunk : Parser → Parser
wait_for_chunk s = take_chunk s s.chunks

-- `this.position = offset`
abbrev pub at_position : Parser → ℕ → Parser
at_position s position = record {
  buffer = s.buffer;
  position = position;
  chunks = s.chunks;
  columns = s.columns;
  waited = s.waited;
}

-- `unfinished`: the loops have not ended within the fuel.
pub data Outcome (A : Type 0) : Type 0 where
  ok : A → Parser → Outcome A
  failed : Error → Outcome A
  unfinished : Outcome A

abbrev pub and_then : {A B : Type 0} → Outcome A → (A → Parser → Outcome B) → Outcome B
and_then (ok a s) f = f a s
and_then (failed e) f = failed e
and_then unfinished f = unfinished
