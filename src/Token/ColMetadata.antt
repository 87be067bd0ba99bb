-- ===== src/Token/ColMetadata.antt =====
-- lib/token/colmetadata-token-parser.js: one column. The loop over the columns, which waits for chunks, is in
-- StreamParser.
use tedious.Prelude.{
  ℕ, zero, suc, ◌+◌, Bool, ◌&&◌, Option, none, some, List, [], ◌∷◌, leb, if◌then◌else◌,
}
use tedious.Buffer.{JsString}
use tedious.DataType.{has_table_name}
use tedious.Read.{Read, pure, ◌>>=◌, read_uint8, read_us_var_char, read_b_var_char}
use tedious.Read.Stable.{IsStable, bind-IsStable, pure-IsStable, if-IsStable}
use tedious.Read.Variable.{read_uint8-IsStable, read_us_var_char-IsStable, read_b_var_char-IsStable}
use tedious.Metadata.{Metadata, Options, before_7_2, read_metadata}
use tedious.Metadata.Stable.{read_metadata-IsStable}
use tedious.Token.{ColumnMetadata, TableName, unnamed, whole_name, name_parts}

unfoldable pub read_parts : ℕ → Read (List JsString)
unfolding read_us_var_char ◌>>=◌ pure
read_parts zero = pure []
read_parts (suc k) = do part ← read_us_var_char; rest ← read_parts k; pure (part ∷ rest)

abbrev pub read_whole_name : Read TableName
read_whole_name = do name ← read_us_var_char; pure (whole_name name)

abbrev pub read_name_parts : Read TableName
read_name_parts = do
  number_of_table_name_parts ← read_uint8
  parts ← read_parts number_of_table_name_parts
  pure (name_parts parts)

unfoldable pub read_table_name : Metadata → Options → Read TableName
unfolding read_parts read_uint8 read_us_var_char has_table_name before_7_2 ◌>>=◌ pure
read_table_name metadata options =
    if has_table_name metadata.type
    then if before_7_2 options then read_whole_name else read_name_parts
    else pure unnamed

-- colName.replace(/^[A-Z]/, s => s.toLowerCase())
unfoldable pub camel_case : JsString → JsString
camel_case [] = []
camel_case (c ∷ cs) = (if leb 65 c && leb c 90 then c + 32 else c) ∷ cs

abbrev pub renamed :
    Option (JsString → ℕ → Metadata → JsString) → Bool → ℕ → Metadata → JsString → JsString
renamed (some replacer) camel index metadata name = replacer name index metadata
renamed none camel index metadata name = if camel then camel_case name else name

unfoldable pub read_column_name : ℕ → Metadata → Options → Read JsString
unfolding read_b_var_char camel_case ◌>>=◌ pure
read_column_name index metadata options = do
  col_name ← read_b_var_char
  pure (renamed options.column_name_replacer options.camel_case_columns index metadata col_name)

unfoldable pub read_column : Options → ℕ → Read ColumnMetadata
unfolding read_metadata read_table_name read_column_name ◌>>=◌ pure
read_column options index = do
  metadata ← read_metadata options
  table_name ← read_table_name metadata options
  col_name ← read_column_name index metadata options
  pure (record {
    user_type = metadata.user_type;
    flags = metadata.flags;
    type = metadata.type;
    collation = metadata.collation;
    precision = metadata.precision;
    scale = metadata.scale;
    udt_info = metadata.udt_info;
    data_length = metadata.data_length;
    schema = metadata.schema;
    col_name = col_name;
    table_name = table_name;
  })

read_parts-IsStable : (k : ℕ) → IsStable 0 (read_parts k)
unfolding read_parts
read_parts-IsStable zero = pure-IsStable _
read_parts-IsStable (suc k) =
    bind-IsStable _ _ read_us_var_char-IsStable
      λ c. bind-IsStable _ _ (read_parts-IsStable k) λ r. pure-IsStable _

read_table_name-IsStable :
    (m : Metadata) (options : Options) → IsStable 0 (read_table_name m options)
unfolding read_table_name
read_table_name-IsStable m options =
    if-IsStable _ _ _
      (if-IsStable _ _ _ (bind-IsStable _ _ read_us_var_char-IsStable λ a. pure-IsStable _) (
        bind-IsStable _ _ read_uint8-IsStable
          λ k. bind-IsStable _ _ (read_parts-IsStable k) λ a. pure-IsStable _))
      (pure-IsStable _)

read_column_name-IsStable :
    (i : ℕ) (m : Metadata) (options : Options) → IsStable 0 (read_column_name i m options)
unfolding read_column_name
read_column_name-IsStable i m options =
    bind-IsStable _ _ read_b_var_char-IsStable λ a. pure-IsStable _

pub read_column-IsStable : (options : Options) (i : ℕ) → IsStable 0 (read_column options i)
unfolding read_column
read_column-IsStable options i = bind-IsStable _ _ (read_metadata-IsStable options) λ m.
    bind-IsStable _ _ (read_table_name-IsStable m options)
      λ t. bind-IsStable _ _ (read_column_name-IsStable i m options) λ c. pure-IsStable _
