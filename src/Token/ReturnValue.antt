-- ===== src/Token/ReturnValue.antt =====
-- lib/token/returnvalue-token-parser.js: the description of the parameter, and the whole token from all the bytes at
-- once. The loops, which wait for chunks, are in StreamParser/Rows.
use tedious.Prelude.{ℕ, [], ◌∷◌, ◌==◌, if◌then◌else◌}
use tedious.Buffer.{Buffer, JsString}
use tedious.Collation.Codepages.{Codepage}
use tedious.Metadata.{Metadata, Options, read_metadata}
use tedious.Read.{Read, pure, ◌>>=◌, ◌>>◌, read_uint8, read_uint16_le, read_b_var_char}
use tedious.Value.{JsValue}
use tedious.Value.Plp.{whole_cell}
use tedious.Token.{ReturnValueData}

pub record Param : Type 0 where
  pub ordinal : ℕ
  pub name : JsString
  pub metadata : Metadata

-- `if (paramName.charAt(0) === '@') paramName = paramName.slice(1)`
unfoldable pub without_at : JsString → JsString
without_at [] = []
without_at (c ∷ cs) = if c == 0x40 then cs else c ∷ cs

unfoldable pub read_param : Options → Read Param
unfolding read_uint8 read_uint16_le read_b_var_char read_metadata without_at ◌>>=◌ pure
read_param options = do
  param_ordinal ← read_uint16_le
  param_name ← read_b_var_char
  read_uint8
  metadata ← read_metadata options
  pure (record { ordinal = param_ordinal; name = without_at param_name; metadata = metadata })

abbrev pub with_value : Param → JsValue → ReturnValueData
with_value param value = record {
  param_ordinal = param.ordinal;
  param_name = param.name;
  metadata = param.metadata;
  value = value;
}

unfoldable pub whole_return_value : (Codepage → Buffer → JsString) → Options → Read ReturnValueData
unfolding read_param whole_cell ◌>>=◌ pure
whole_return_value decode options = do
  param ← read_param options
  value ← whole_cell decode options param.metadata
  pure (with_value param value)
