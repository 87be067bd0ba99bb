-- ===== src/StreamParser/Rows.antt =====
-- The loops of lib/token/row-token-parser.js, lib/token/nbcrow-token-parser.js and
-- lib/token/returnvalue-token-parser.js.
pub mod Agree
use tedious.Prelude.{ℕ, Bool, false, List, [], ◌∷◌, if◌then◌else◌}
use tedious.Buffer.{Buffer, JsString}
use tedious.Collation.Codepages.{Codepage}
use tedious.Metadata.{Metadata, Options}
use tedious.Value.{JsValue, js_null}
use tedious.Value.Plp.{take_bytes}
use tedious.Token.{ColumnMetadata, Cell, RowColumns, ReturnValueData}
use tedious.Token.Row.{metadata_of, new_cell, row_columns, bitmap_of, bitmap_byte_length}
use tedious.Token.ReturnValue.{read_param, with_value}
use tedious.StreamParser.{Parser, Outcome, ok, and_then}
use tedious.StreamParser.Wait.{retry}
use tedious.StreamParser.Cells.{read_cell}

module _ (fuel : ℕ) (decode : Codepage → Buffer → JsString) (options : Options) where
  -- `for (const metadata of parser.colMetadata)`
  unfoldable pub read_cells : List ColumnMetadata → Parser → Outcome (List Cell)
  unfolding read_cell
  read_cells [] s = ok [] s
  read_cells (metadata ∷ columns) s =
      and_then (read_cell fuel decode options (metadata_of metadata) s)
        λ value s. and_then (read_cells columns s) λ rest s. ok (new_cell metadata value ∷ rest) s

  -- rowParser(parser)
  unfoldable pub row_parser : List ColumnMetadata → Parser → Outcome RowColumns
  unfolding read_cells row_columns
  row_parser columns s = and_then (read_cells columns s) λ cells s. ok (row_columns options cells) s

  -- `if (bitmap[i]) { …; continue; }`
  abbrev pub read_unless : Bool → Metadata → Parser → Outcome JsValue
  read_unless is_null m s = if is_null then ok js_null s else read_cell fuel decode options m s

  unfoldable pub read_nbc_cells : List Bool → List ColumnMetadata → Parser → Outcome (List Cell)
  unfolding read_cell
  read_nbc_cells bitmap [] s = ok [] s
  read_nbc_cells [] (metadata ∷ columns) s =
      and_then (read_unless false (metadata_of metadata) s) λ value s.
        and_then (read_nbc_cells [] columns s) λ rest s. ok (new_cell metadata value ∷ rest) s
  read_nbc_cells (is_null ∷ bitmap) (metadata ∷ columns) s =
      and_then (read_unless is_null (metadata_of metadata) s) λ value s.
        and_then (read_nbc_cells bitmap columns s) λ rest s. ok (new_cell metadata value ∷ rest) s

  -- nbcRowParser(parser)
  unfoldable pub nbc_row_parser : List ColumnMetadata → Parser → Outcome RowColumns
  unfolding read_nbc_cells bitmap_of row_columns retry
  nbc_row_parser columns s =
      and_then (retry fuel (take_bytes (bitmap_byte_length columns)) s) λ bytes s.
        and_then (read_nbc_cells (bitmap_of bytes) columns s)
          λ cells s. ok (row_columns options cells) s

  -- returnParser(parser)
  unfoldable pub return_parser : Parser → Outcome ReturnValueData
  unfolding read_param read_cell retry
  return_parser s = and_then (retry fuel (read_param options) s) λ param s.
      and_then (read_cell fuel decode options param.metadata s)
        λ value s. ok (with_value param value) s
