-- ===== src/Tests/Tokens.antt =====
-- Tokens of lib/token/ on small inputs.
use tedious.Prelude.{
  true, ◌+◌, ◌≡◌, refl, false, none, some, List, [], ◌∷◌, ◌++◌, concat, length, arith,
}
use tedious.Buffer.{read_at, Buffer, JsString}
use tedious.Collation.{from_buffer, to_buffer, new_collation}
use tedious.Collation.RoundTrip.{to_buffer-from_buffer, from_buffer-to_buffer}
use tedious.Metadata.{Options, before_7_2, read_metadata}
use tedious.Metadata.Stable.{read_metadata_append}
use tedious.Read.{result, read_uint16_le, not_enough_data}
use tedious.Read.Stable.{Settles}
use tedious.Token.{done, order}
use tedious.Token.Done.{done_parser}
use tedious.Token.Done.Layout.{done_fields, done_layout, done_parser-layout}
use tedious.Token.Order.{order_parser}
use tedious.Token.Order.Layout.{order_layout, order_parser-layout}
use tedious.StreamParser.{Parser, unfinished}
use tedious.StreamParser.Wait.{retry}
use tedious.StreamParser.Tokens.{parse_tokens}
use tedious.StreamParser.Whole.{tokens_of, whole_token}
use tedious.Collation.Codepages.{Codepage}
use tedious.StreamParser.Chunks.{
  EndsInModel, SameRun, defined_tokens, parse_tokens_lem, parse_tokens_rechunk,
}
use tedious.StreamParser.Exhausted.{retry-exhausted}

-- '7_4'
abbrev pub options : Options
options = record {
  tds_version = 55 ∷ 95 ∷ 52 ∷ [];
  column_name_replacer = none;
  camel_case_columns = false;
  use_utc = true;
  lower_case_guids = false;
  use_column_names = false;
}

-- Of any code page, each byte a code unit.
abbrev pub decode : Codepage → Buffer → JsString
decode codepage bytes = bytes

-- A DONE token with a row count of 3, cut in two, and in one piece.
abbrev pub two_chunks : List Buffer
two_chunks = (0xFD ∷ 0x10 ∷ 0 ∷ 0xC1 ∷ 0 ∷ 3 ∷ []) ∷ (0 ∷ 0 ∷ 0 ∷ 0 ∷ 0 ∷ 0 ∷ 0 ∷ []) ∷ []

abbrev pub one_chunk : List Buffer
one_chunk = concat two_chunks ∷ []

pub two_chunks-EndsInModel : EndsInModel (tokens_of options decode 14 [] (concat two_chunks)).ending
unfolding tokens_of whole_token done_parser read_at
two_chunks-EndsInModel = tt

parse_tokens_lem_example :
    SameRun
      (parse_tokens 2 options decode 19 two_chunks [])
      (tokens_of options decode 14 [] (concat two_chunks))
parse_tokens_lem_example =
    parse_tokens_lem 2 options decode 19 two_chunks [] (omega arith) (omega arith)
      two_chunks-EndsInModel

parse_tokens_rechunk_example :
    (defined_tokens (parse_tokens 2 options decode 19 two_chunks []).yielded
      ≡ defined_tokens (parse_tokens 2 options decode 17 one_chunk []).yielded)
    × ((parse_tokens 2 options decode 19 two_chunks []).ending
        ≡ (parse_tokens 2 options decode 17 one_chunk []).ending)
parse_tokens_rechunk_example =
    parse_tokens_rechunk 2 options decode 19 17 two_chunks one_chunk [] refl (omega arith)
      (omega arith) (omega arith) (omega arith) two_chunks-EndsInModel

-- One byte of a two-byte number, and no chunk to come.
abbrev cut_off : Parser
cut_off = record { buffer = 7 ∷ []; position = 0; chunks = []; columns = []; waited = false }

cut_off_short : read_uint16_le (7 ∷ []) 0 ≡ not_enough_data 2
unfolding read_uint16_le
cut_off_short = refl

retry-exhausted_example : retry 5 read_uint16_le cut_off ≡ unfinished
retry-exhausted_example = retry-exhausted 5 read_uint16_le cut_off 2 refl cut_off_short

to_buffer-from_buffer_example :
    to_buffer (from_buffer (9 ∷ 4 ∷ 0xd0 ∷ 0 ∷ 52 ∷ [])) ≡ 9 ∷ 4 ∷ 0xd0 ∷ 0 ∷ 52 ∷ []
to_buffer-from_buffer_example =
    to_buffer-from_buffer 9 4 0xd0 0 52 (omega arith) (omega arith) (omega arith) (omega arith)
      (omega arith)

from_buffer-to_buffer_example :
    from_buffer (to_buffer (new_collation 0x409 0x0d 0 (some 52)))
    ≡ new_collation 0x409 0x0d 0 (some 52)
from_buffer-to_buffer_example =
    from_buffer-to_buffer 0x409 0x0d 0 52 (omega arith) (omega arith) (omega arith) (omega arith)

-- A column of INT4.
read_metadata_append_example :
    Settles
      (read_metadata options (0 ∷ 0 ∷ 0 ∷ 0 ∷ 9 ∷ 0 ∷ 0x38 ∷ []) 0)
      (read_metadata options ((0 ∷ 0 ∷ 0 ∷ 0 ∷ 9 ∷ 0 ∷ 0x38 ∷ []) ++ (1 ∷ [])) 0)
read_metadata_append_example =
    read_metadata_append options (0 ∷ 0 ∷ 0 ∷ 0 ∷ 9 ∷ 0 ∷ 0x38 ∷ []) (1 ∷ []) 0 (omega arith)

late : before_7_2 options ≡ false
unfolding before_7_2
late = refl

-- A DONE token with the flag for its row count, and a byte behind it.
done_parser-layout_example :
    done_parser options ([] ++ (done_layout 0x10 0xC1 3 ++ (0 ∷ []))) 0
    ≡ result (done (done_fields 0x10 0xC1 3)) 12
done_parser-layout_example =
    done_parser-layout options 0x10 0xC1 3 [] (0 ∷ []) late (omega arith) (omega arith)
      (omega arith)

order_parser-layout_example :
    order_parser ((0xA9 ∷ []) ++ (order_layout (2 ∷ 1 ∷ []) ++ [])) 1
    ≡ result (order (2 ∷ 1 ∷ [])) (1 + length (order_layout (2 ∷ 1 ∷ [])))
order_parser-layout_example =
    order_parser-layout (2 ∷ 1 ∷ []) (0xA9 ∷ []) [] (omega arith) (omega arith, (omega arith, tt))
