-- ===== src/StreamParser/Rows/Agree.antt =====
-- Reading a row or a return value from the chunks of a stream next to reading it from all the bytes.
use tedious.Prelude.{ℕ, Bool, List, [], ◌∷◌, false}
use tedious.Buffer.{Buffer, JsString}
use tedious.Collation.Codepages.{Codepage}
use tedious.Metadata.{Metadata, Options}
use tedious.Metadata.Stable.{read_metadata-IsStable, column_rules}
use tedious.Read.Stable.{IsStable, pure-IsStable, if-IsStable, bind-IsStable}
use tedious.Value.{js_null}
use tedious.Value.Plp.Stable.{take_bytes-IsStable, whole_cell-IsStable}
use tedious.Token.{ColumnMetadata}
use tedious.Token.Row.{
  metadata_of, whole_cells, whole_nbc_cells, whole_unless, whole_row, whole_nbc_row,
}
use tedious.Token.ReturnValue.{read_param, whole_return_value}
use tedious.StreamParser.Refine.{Implements, retry-Implements, ok-Implements, bind-Implements}
use tedious.StreamParser.Cells.Agree.{if-Implements, read_cell-Implements}
use tedious.StreamParser.Rows.{
  read_cells, row_parser, read_unless, read_nbc_cells, nbc_row_parser, return_parser,
}

module _ (decode : Codepage → Buffer → JsString) (options : Options) where
  whole_cells-IsStable :
      (columns : List ColumnMetadata) → IsStable 0 (whole_cells decode options columns)
  unfolding whole_cells
  whole_cells-IsStable [] = pure-IsStable _
  whole_cells-IsStable (metadata ∷ columns) =
      bind-IsStable _ _ (whole_cell-IsStable decode options (metadata_of metadata))
        λ v. bind-IsStable _ _ (whole_cells-IsStable columns) λ r. pure-IsStable _

  whole_unless-IsStable :
      (is_null : Bool) (m : Metadata) → IsStable 0 (whole_unless decode options is_null m)
  whole_unless-IsStable is_null m =
      if-IsStable _ _ _ (pure-IsStable _) (whole_cell-IsStable decode options m)

  whole_nbc_cells-IsStable :
      (bitmap : List Bool) (columns : List ColumnMetadata)
      → IsStable 0 (whole_nbc_cells decode options bitmap columns)
  unfolding whole_nbc_cells
  whole_nbc_cells-IsStable bitmap [] = pure-IsStable _
  whole_nbc_cells-IsStable [] (metadata ∷ columns) =
      bind-IsStable _ _ (whole_unless-IsStable false (metadata_of metadata))
        λ v. bind-IsStable _ _ (whole_nbc_cells-IsStable [] columns) λ r. pure-IsStable _
  whole_nbc_cells-IsStable (is_null ∷ bitmap) (metadata ∷ columns) =
      bind-IsStable _ _ (whole_unless-IsStable is_null (metadata_of metadata))
        λ v. bind-IsStable _ _ (whole_nbc_cells-IsStable bitmap columns) λ r. pure-IsStable _

  read_param-IsStable : IsStable 0 (read_param options)
  unfolding read_param
  read_param-IsStable = search (column_rules, read_metadata-IsStable) depth 12

  pub whole_row-IsStable :
      (columns : List ColumnMetadata) → IsStable 0 (whole_row decode options columns)
  unfolding whole_row
  whole_row-IsStable columns = bind-IsStable _ _ (whole_cells-IsStable columns) λ c. pure-IsStable _

  pub whole_nbc_row-IsStable :
      (columns : List ColumnMetadata) → IsStable 0 (whole_nbc_row decode options columns)
  unfolding whole_nbc_row
  whole_nbc_row-IsStable columns =
      bind-IsStable _ _ (take_bytes-IsStable _)
        λ b. bind-IsStable _ _ (whole_nbc_cells-IsStable _ columns) λ c. pure-IsStable _

  pub whole_return_value-IsStable : IsStable 0 (whole_return_value decode options)
  unfolding whole_return_value
  whole_return_value-IsStable =
      bind-IsStable _ _ read_param-IsStable
        λ p. bind-IsStable _ _ (whole_cell-IsStable decode options p.metadata) λ v. pure-IsStable _

module _ (fuel : ℕ) (decode : Codepage → Buffer → JsString) (options : Options) where
  read_cells-Implements :
      (columns : List ColumnMetadata)
      → Implements fuel
          (whole_cells decode options columns)
          (read_cells fuel decode options columns)
  unfolding whole_cells read_cells
  read_cells-Implements [] = ok-Implements fuel []
  read_cells-Implements (metadata ∷ columns) =
      bind-Implements fuel _ _ _ _ (read_cell-Implements fuel decode options (metadata_of metadata))
        (λ v. bind-IsStable _ _ (whole_cells-IsStable decode options columns) λ r. pure-IsStable _)
        λ v.
          bind-Implements fuel _ _ _ _ (read_cells-Implements columns) (λ r. pure-IsStable _)
            λ r. ok-Implements fuel _

  read_unless-Implements :
      (is_null : Bool) (m : Metadata)
      → Implements fuel
          (whole_unless decode options is_null m)
          (read_unless fuel decode options is_null m)
  read_unless-Implements is_null m =
      if-Implements fuel is_null _ _ _ _ (ok-Implements fuel js_null)
        (read_cell-Implements fuel decode options m)

  read_nbc_cells-Implements :
      (bitmap : List Bool) (columns : List ColumnMetadata)
      → Implements fuel
          (whole_nbc_cells decode options bitmap columns)
          (read_nbc_cells fuel decode options bitmap columns)
  unfolding whole_nbc_cells read_nbc_cells
  read_nbc_cells-Implements bitmap [] = ok-Implements fuel []
  read_nbc_cells-Implements [] (metadata ∷ columns) =
      bind-Implements fuel _ _ _ _ (read_unless-Implements false (metadata_of metadata))
        (λ v.
          bind-IsStable _ _ (whole_nbc_cells-IsStable decode options [] columns)
            λ r. pure-IsStable _)
        λ v.
          bind-Implements fuel _ _ _ _ (read_nbc_cells-Implements [] columns) (λ r. pure-IsStable _)
            λ r. ok-Implements fuel _
  read_nbc_cells-Implements (is_null ∷ bitmap) (metadata ∷ columns) =
      bind-Implements fuel _ _ _ _ (read_unless-Implements is_null (metadata_of metadata))
        (λ v.
          bind-IsStable _ _ (whole_nbc_cells-IsStable decode options bitmap columns)
            λ r. pure-IsStable _)
        λ v.
          bind-Implements fuel _ _ _ _ (read_nbc_cells-Implements bitmap columns)
            (λ r. pure-IsStable _) λ r. ok-Implements fuel _

  pub row_parser-Implements :
      (columns : List ColumnMetadata)
      → Implements fuel (whole_row decode options columns) (row_parser fuel decode options columns)
  unfolding whole_row row_parser
  row_parser-Implements columns =
      bind-Implements fuel _ _ _ _ (read_cells-Implements columns) (λ c. pure-IsStable _)
        λ c. ok-Implements fuel _

  pub nbc_row_parser-Implements :
      (columns : List ColumnMetadata)
      → Implements fuel
          (whole_nbc_row decode options columns)
          (nbc_row_parser fuel decode options columns)
  unfolding whole_nbc_row nbc_row_parser
  nbc_row_parser-Implements columns =
      bind-Implements fuel _ _ _ _ (retry-Implements fuel _ (take_bytes-IsStable _))
        (λ b.
          bind-IsStable _ _ (whole_nbc_cells-IsStable decode options _ columns)
            λ c. pure-IsStable _)
        λ b.
          bind-Implements fuel _ _ _ _ (read_nbc_cells-Implements _ columns) (λ c. pure-IsStable _)
            λ c. ok-Implements fuel _

  pub return_parser-Implements :
      Implements fuel (whole_return_value decode options) (return_parser fuel decode options)
  unfolding whole_return_value return_parser
  return_parser-Implements =
      bind-Implements fuel _ _ _ _ (retry-Implements fuel _ (read_param-IsStable decode options))
        (λ p.
          bind-IsStable _ _ (whole_cell-IsStable decode options p.metadata) λ v. pure-IsStable _)
        λ p.
          bind-Implements fuel _ _ _ _ (read_cell-Implements fuel decode options p.metadata)
            (λ v. pure-IsStable _) λ v. ok-Implements fuel _
