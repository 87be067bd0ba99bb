-- ===== src/StreamParser/Tokens.antt =====
-- Parser.parseTokens and readToken of lib/token/stream-parser.js, and the loops of
-- lib/token/colmetadata-token-parser.js. `fuel` bounds the waits of one reading.
use tedious.Prelude.{
  ℕ, zero, suc, ◌+◌, Bool, true, false, Option, none, some, List, [], ◌∷◌, ◌==◌, ◌&&◌, leb, get_or,
  length, if◌then◌else◌,
}
use tedious.Buffer.{Buffer, JsString}
use tedious.Collation.Codepages.{Codepage}
use tedious.Metadata.{Options}
use tedious.Read.{Read, Error, pure, ◌>>=◌, read_uint16_le, unknown_type}
use tedious.Token.{
  Token, ColumnMetadata, RowColumns, ReturnValueData, col_metadata, row, nbc_row, return_value,
}
use tedious.Token.Done.{done_parser, done_in_proc_parser, done_proc_parser}
use tedious.Token.InfoError.{info_parser, error_parser}
use tedious.Token.LoginAck.{login_ack_parser}
use tedious.Token.Order.{order_parser}
use tedious.Token.ReturnStatus.{return_status_parser}
use tedious.Token.EnvChange.{env_change_parser}
use tedious.Token.FeatureExtAck.{feature_ext_ack_parser}
use tedious.Token.FedAuthInfo.{fed_auth_info_parser}
use tedious.Token.Sspi.{sspi_parser}
use tedious.Token.ColMetadata.{read_column}
use tedious.StreamParser.{
  Parser, Outcome, ok, failed, unfinished, and_then, new_parser, wait_for_chunk,
}
use tedious.StreamParser.Wait.{retry}
use tedious.StreamParser.Rows.{row_parser, nbc_row_parser, return_parser}

-- How parseTokens ends: it returns, it throws, or it has not ended within the fuel.
pub data Ending : Type 0 where
  ended : Ending
  raised : Error → Ending
  running : Ending

-- `undefined`, which a promise may resolve to, is `none`.
pub record Run (A : Type 0) : Type 0 where
  pub yielded : List A
  pub ending : Ending

abbrev pub yields : {A : Type 0} → A → Run A → Run A
yields a r = record { yielded = a ∷ r.yielded; ending = r.ending }

abbrev pub stops : {A : Type 0} → Ending → Run A
stops e = record { yielded = []; ending = e }

pub data Phase : Type 0 where
  outer inner : Phase

-- `this.position += 1`, before a token is read.
abbrev pub begin_token : Parser → Parser
begin_token s = record {
  buffer = s.buffer;
  position = s.position + 1;
  chunks = s.chunks;
  columns = s.columns;
  waited = false;
}

abbrev pub with_columns : Parser → List ColumnMetadata → Parser
with_columns s columns = record {
  buffer = s.buffer;
  position = s.position;
  chunks = s.chunks;
  columns = columns;
  waited = s.waited;
}

unfoldable pub defined : Read Token → Read (Option Token)
unfolding ◌>>=◌ pure
defined p = do token ← p; pure (some token)

-- The synchronous parsers of `switch (type)`: those about the session, and those about a request.
unfoldable pub session_parser_of : ℕ → Option (Read (Option Token))
unfolding defined
session_parser_of type =
    if type == 0xE3
    then some env_change_parser
    else if type == 0xAD
    then some (defined login_ack_parser)
    else if type == 0xAE
    then some (defined feature_ext_ack_parser)
    else if type == 0xEE
    then some (defined fed_auth_info_parser)
    else if type == 0xED
    then some (defined sspi_parser)
    else none

unfoldable pub parser_of : Options → ℕ → Option (Read (Option Token))
unfolding defined session_parser_of
parser_of options type =
    if type == 0xFD
    then some (defined (done_parser options))
    else if type == 0xFE
    then some (defined (done_proc_parser options))
    else if type == 0xFF
    then some (defined (done_in_proc_parser options))
    else if type == 0xAA
    then some (defined (error_parser options))
    else if type == 0xAB
    then some (defined (info_parser options))
    else if type == 0x79
    then some (defined return_status_parser)
    else if type == 0xA9
    then some (defined order_parser)
    else session_parser_of type

-- `if (token !== undefined) yield token`, where a promise is not undefined.
abbrev pub yield_token : Option Token → Bool → Run (Option Token) → Run (Option Token)
yield_token (some token) waited r = yields (some token) r
yield_token none true r = yields none r
yield_token none false r = r

abbrev pub after_token : Outcome (Option Token) → (Parser → Run (Option Token)) → Run (Option Token)
after_token (ok token s) rest = yield_token token s.waited (rest s)
after_token (failed e) rest = stops (raised e)
after_token unfinished rest = stops running

module _ (fuel : ℕ) (options : Options) (decode : Codepage → Buffer → JsString) where
  -- `for (let i = 0; i < columnCount; i++)`, with `i` and the rounds that are left.
  unfoldable pub read_columns : ℕ → ℕ → Parser → Outcome (List ColumnMetadata)
  unfolding retry read_column
  read_columns zero i s = ok [] s
  read_columns (suc k) i s =
      and_then (retry fuel (read_column options i) s)
        λ column s. and_then (read_columns k (suc i) s) λ rest s. ok (column ∷ rest) s

  unfoldable pub col_metadata_parser : Parser → Outcome (List ColumnMetadata)
  unfolding read_columns retry read_uint16_le
  col_metadata_parser s =
      and_then (retry fuel read_uint16_le s) λ column_count s. read_columns column_count 0 s

  unfoldable pub read_col_metadata_token : Parser → Outcome (Option Token)
  unfolding col_metadata_parser
  read_col_metadata_token s =
      and_then (col_metadata_parser s)
        λ columns s. ok (some (col_metadata columns)) (with_columns s columns)

  abbrev pub read_with : ℕ → Option (Read (Option Token)) → Parser → Outcome (Option Token)
  read_with type none s = failed (unknown_type type)
  read_with type (some p) s = retry fuel p s

  abbrev pub row_token : (RowColumns → Token) → Outcome RowColumns → Outcome (Option Token)
  row_token make o = and_then o λ columns s. ok (some (make columns)) s

  abbrev pub return_value_token : Outcome ReturnValueData → Outcome (Option Token)
  return_value_token o = and_then o λ value s. ok (some (return_value value)) s

  -- The tokens that leave `this.colMetadata` as it is.
  unfoldable pub read_row_or_other : ℕ → List ColumnMetadata → Parser → Outcome (Option Token)
  unfolding row_parser nbc_row_parser return_parser parser_of retry
  read_row_or_other type columns s =
      if type == 0xD1
      then row_token row (row_parser fuel decode options columns s)
      else if type == 0xD2
      then row_token nbc_row (nbc_row_parser fuel decode options columns s)
      else if type == 0xAC
      then return_value_token (return_parser fuel decode options s)
      else read_with type (parser_of options type) s

  unfoldable pub read_token : ℕ → Parser → Outcome (Option Token)
  unfolding read_col_metadata_token read_row_or_other
  read_token type s =
      if type == 0x81 then read_col_metadata_token s else read_row_or_other type s.columns s

  -- The two nested loops of parseTokens, round by round.
  unfoldable pub run : ℕ → Phase → Parser → Run (Option Token)
  unfolding read_token wait_for_chunk
  run zero phase s = stops running
  run (suc rounds) outer s =
      let rest = run rounds inner (wait_for_chunk s) in
      if length s.chunks == 0 && s.position == length s.buffer then stops ended else rest
  run (suc rounds) inner s =
      let next =
        after_token (read_token (get_or s.buffer s.position 0) (begin_token s))
          (run rounds inner) in
      let leave = run rounds outer s in
      if leb (s.position + 1) (length s.buffer) then next else leave

  -- Parser.parseTokens(iterable, debug, options, colMetadata)
  unfoldable pub parse_tokens : ℕ → List Buffer → List ColumnMetadata → Run (Option Token)
  unfolding run new_parser
  parse_tokens rounds chunks columns = run rounds outer (new_parser chunks columns)
