-- ===== src/StreamParser/Whole.antt =====
-- What a token stream holds, read from all of its bytes at once: the specification of
-- lib/token/stream-parser.js, which knows of no chunks and no waits.
use tedious.Prelude.{ℕ, zero, suc, Option, none, some, List, [], ◌∷◌, ◌==◌, drop, if◌then◌else◌}
use tedious.Buffer.{Buffer, JsString}
use tedious.Collation.Codepages.{Codepage}
use tedious.Metadata.{Options}
use tedious.Read.{
  Read, Result, result, not_enough_data, thrown, pure, throw, ◌>>=◌, read_uint16_le, unknown_type,
}
use tedious.Token.{Token, ColumnMetadata, col_metadata, row, nbc_row, return_value}
use tedious.Token.Row.{whole_row, whole_nbc_row}
use tedious.Token.ReturnValue.{whole_return_value}
use tedious.Token.ColMetadata.{read_column}
use tedious.StreamParser.Tokens.{Run, ended, raised, running, yields, stops, parser_of}

module _ (options : Options) where
  unfoldable pub whole_columns : ℕ → ℕ → Read (List ColumnMetadata)
  unfolding read_column ◌>>=◌ pure
  whole_columns zero i = pure []
  whole_columns (suc k) i = do
    column ← read_column options i
    rest ← whole_columns k (suc i)
    pure (column ∷ rest)

  unfoldable pub whole_col_metadata : Read (List ColumnMetadata)
  unfolding whole_columns read_uint16_le ◌>>=◌
  whole_col_metadata = do count ← read_uint16_le; whole_columns count 0

abbrev pub known : ℕ → Option (Read (Option Token)) → Read (Option Token)
known type none = throw (unknown_type type)
known type (some p) = p

abbrev pub keep : Option Token → Run Token → Run Token
keep none r = r
keep (some token) r = yields token r

-- A column token brings the columns of the rows behind it.
abbrev pub new_columns : List ColumnMetadata → Option Token × List ColumnMetadata
new_columns columns = (some (col_metadata columns), columns)

abbrev pub old_columns : List ColumnMetadata → Option Token → Option Token × List ColumnMetadata
old_columns columns token = (token, columns)

abbrev pub follow :
    Result (Option Token × List ColumnMetadata) → (List ColumnMetadata → ℕ → Run Token) → Run Token
follow (result (token, columns) n) rest = keep token (rest columns n)
follow (not_enough_data n) rest = stops running
follow (thrown e) rest = stops (raised e)

module _ (options : Options) (decode : Codepage → Buffer → JsString) where
  -- A token that leaves the columns as they are.
  unfoldable pub whole_row_or_other : ℕ → List ColumnMetadata → Read (Option Token)
  unfolding whole_row whole_nbc_row whole_return_value parser_of ◌>>=◌ pure throw
  whole_row_or_other type columns =
      if type == 0xD1
      then (whole_row decode options columns >>= λ c. pure (some (row c)))
      else if type == 0xD2
      then (whole_nbc_row decode options columns >>= λ c. pure (some (nbc_row c)))
      else if type == 0xAC
      then (whole_return_value decode options >>= λ v. pure (some (return_value v)))
      else known type (parser_of options type)

  -- A token, if there is one, with the columns that hold behind it.
  unfoldable pub whole_token : ℕ → List ColumnMetadata → Read (Option Token × List ColumnMetadata)
  unfolding whole_col_metadata whole_row_or_other ◌>>=◌ pure
  whole_token type columns =
      if type == 0x81
      then (whole_col_metadata options >>= λ cs. pure (new_columns cs))
      else (whole_row_or_other type columns >>= λ token. pure (old_columns columns token))

  -- The tokens of a stream and how it ends: `running` where it is cut off within a token.
  unfoldable pub tokens_of : ℕ → List ColumnMetadata → Buffer → Run Token
  unfolding whole_token
  tokens_of zero columns bytes = stops running
  tokens_of (suc rounds) columns [] = stops ended
  tokens_of (suc rounds) columns (type ∷ bytes) =
      follow (whole_token type columns bytes 0) λ columns n. tokens_of rounds columns (drop n bytes)
