-- ===== src/Token/Row.antt =====
-- lib/token/row-token-parser.js and lib/token/nbcrow-token-parser.js: what a row is, from all the bytes at once, and
-- the columns under their names. The loops, which wait for chunks, are in StreamParser/Rows.
use tedious.Prelude.{
  ℕ, ◌+◌, ◌/◌, Bool, true, false, not, List, [], ◌∷◌, ◌++◌, ◌==◌, bit_and, length, if◌then◌else◌,
  ◌&&◌,
}
use tedious.Buffer.{Buffer, JsString}
use tedious.Collation.Codepages.{Codepage}
use tedious.Metadata.{Metadata, Options}
use tedious.Read.{Read, pure, ◌>>=◌, require, advance}
use tedious.Value.{JsValue, js_null}
use tedious.Value.Plp.{take_bytes, whole_cell}
use tedious.Token.{ColumnMetadata, Cell, RowColumns, array, by_name}

-- A column as the value parsers read it, by the fields of its type.
abbrev pub metadata_of : ColumnMetadata → Metadata
metadata_of c = record {
  user_type = c.user_type;
  flags = c.flags;
  type = c.type;
  collation = c.collation;
  precision = c.precision;
  scale = c.scale;
  data_length = c.data_length;
  schema = c.schema;
  udt_info = c.udt_info;
}

abbrev pub new_cell : ColumnMetadata → JsValue → Cell
new_cell metadata value = record { value = value; metadata = metadata }

abbrev pub same_name : JsString → JsString → Bool
same_name [] [] = true
same_name [] (d ∷ ds) = false
same_name (c ∷ cs) [] = false
same_name (c ∷ cs) (d ∷ ds) = (c == d) && same_name cs ds

abbrev pub has_name : JsString → List Cell → Bool
has_name name [] = false
has_name name (c ∷ cs) = if same_name c.metadata.col_name name then true else has_name name cs

-- `if (columnsMap[colName] == null) columnsMap[colName] = column`, for each column in order.
unfoldable pub add_columns : List Cell → List Cell → List Cell
add_columns map [] = map
add_columns map (c ∷ cs) =
    add_columns (if has_name c.metadata.col_name map then map else map ++ (c ∷ [])) cs

unfoldable pub row_columns : Options → List Cell → RowColumns
unfolding add_columns
row_columns options cells =
    if options.use_column_names then by_name (add_columns [] cells) else array cells

-- `byte & 0b1 ? true : false` and so on.
abbrev pub bits_of : ℕ → List Bool
bits_of byte =
    not (bit_and byte 1 == 0)
    ∷ not (bit_and byte 2 == 0)
    ∷ not (bit_and byte 4 == 0)
    ∷ not (bit_and byte 8 == 0)
    ∷ not (bit_and byte 16 == 0)
    ∷ not (bit_and byte 32 == 0)
    ∷ not (bit_and byte 64 == 0)
    ∷ not (bit_and byte 128 == 0)
    ∷ []

unfoldable pub bitmap_of : Buffer → List Bool
bitmap_of [] = []
bitmap_of (byte ∷ bytes) = bits_of byte ++ bitmap_of bytes

-- Math.ceil(colMetadata.length / 8)
abbrev pub bitmap_byte_length : List ColumnMetadata → ℕ
bitmap_byte_length columns = (length columns + 7) / 8

module _ (decode : Codepage → Buffer → JsString) (options : Options) where
  unfoldable pub whole_cells : List ColumnMetadata → Read (List Cell)
  unfolding whole_cell ◌>>=◌ pure
  whole_cells [] = pure []
  whole_cells (metadata ∷ columns) = do
    value ← whole_cell decode options (metadata_of metadata)
    rest ← whole_cells columns
    pure (new_cell metadata value ∷ rest)

  abbrev pub whole_unless : Bool → Metadata → Read JsValue
  whole_unless is_null m = if is_null then pure js_null else whole_cell decode options m

  -- Past the end of the bitmap `bitmap[i]` is undefined.
  unfoldable pub whole_nbc_cells : List Bool → List ColumnMetadata → Read (List Cell)
  unfolding whole_cell ◌>>=◌ pure
  whole_nbc_cells bitmap [] = pure []
  whole_nbc_cells [] (metadata ∷ columns) = do
    value ← whole_unless false (metadata_of metadata)
    rest ← whole_nbc_cells [] columns
    pure (new_cell metadata value ∷ rest)
  whole_nbc_cells (is_null ∷ bitmap) (metadata ∷ columns) = do
    value ← whole_unless is_null (metadata_of metadata)
    rest ← whole_nbc_cells bitmap columns
    pure (new_cell metadata value ∷ rest)

  unfoldable pub whole_row : List ColumnMetadata → Read RowColumns
  unfolding whole_cells row_columns ◌>>=◌ pure
  whole_row columns = do cells ← whole_cells columns; pure (row_columns options cells)

  unfoldable pub whole_nbc_row : List ColumnMetadata → Read RowColumns
  unfolding whole_nbc_cells bitmap_of row_columns require advance ◌>>=◌ pure
  whole_nbc_row columns = do
    bytes ← take_bytes (bitmap_byte_length columns)
    cells ← whole_nbc_cells (bitmap_of bytes) columns
    pure (row_columns options cells)
