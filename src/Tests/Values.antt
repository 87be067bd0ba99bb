-- ===== src/Tests/Values.antt =====
-- Values of lib/value-parser.js and texts of lib/guid-parser.js on small inputs.
use tedious.Prelude.{◌≡◌, refl, false, none, some, [], ◌∷◌, ◌++◌, map, length, arith}
use tedious.Buffer.{Buffer, to_le}
use tedious.Guid.{guid_to_array, buffer_to_lower_case_guid}
use tedious.Guid.RoundTrip.{sixteen, guid_to_array-buffer_to_lower_case_guid}
use tedious.DataType.{int_n}
use tedious.Metadata.{Metadata}
use tedious.Buffer.{read_at, le}
use tedious.Read.{IsInModel, result}
use tedious.Read.Stable.{Settles}
use tedious.Value.Cells.{read_value}
use tedious.Value.Cells.Stable.{read_value_append}
use tedious.TrackingBuffer.{unknown_plp_len}
use tedious.StreamParser.{Parser}
use tedious.StreamParser.Refine.{Agrees, view}
use tedious.StreamParser.Cells.{read_plp_stream}
use tedious.StreamParser.Cells.RoundTrip.{chunks_of, plp_layout, read_plp_stream-plp_layout}
use tedious.Tests.Tokens.{options, decode}

abbrev one_guid : Buffer
one_guid = sixteen 0x10 0x2f 0x30 0xff 4 5 6 7 8 9 10 11 12 13 14 15

guid_to_array-buffer_to_lower_case_guid_example :
    guid_to_array (buffer_to_lower_case_guid one_guid) ≡ some (map some one_guid)
guid_to_array-buffer_to_lower_case_guid_example =
    guid_to_array-buffer_to_lower_case_guid 0x10 0x2f 0x30 0xff 4 5 6 7 8 9 10 11 12 13 14 15 (
      omega arith,
      (
        omega arith,
        (
          omega arith,
          (
            omega arith,
            (
              omega arith,
              (
                omega arith,
                (
                  omega arith,
                  (
                    omega arith,
                    (
                      omega arith,
                      (
                        omega arith,
                        (
                          omega arith,
                          (
                            omega arith,
                            (omega arith, (omega arith, (omega arith, (omega arith, tt)))),
                          ),
                        ),
                      ),
                    ),
                  ),
                ),
              ),
            ),
          ),
        ),
      ),
    )

-- A nullable integer of four bytes.
abbrev int_column : Metadata
int_column = record {
  user_type = 0;
  flags = 1;
  type = int_n;
  collation = none;
  precision = none;
  scale = none;
  data_length = some 4;
  schema = none;
  udt_info = none;
}

int_column-IsInModel : IsInModel (read_value decode options int_column (4 ∷ 7 ∷ 0 ∷ 0 ∷ 0 ∷ []) 0)
unfolding read_value read_at le
int_column-IsInModel = tt

read_value_append_example :
    Settles
      (read_value decode options int_column (4 ∷ 7 ∷ 0 ∷ 0 ∷ 0 ∷ []) 0)
      (read_value decode options int_column ((4 ∷ 7 ∷ 0 ∷ 0 ∷ 0 ∷ []) ++ (1 ∷ [])) 0)
read_value_append_example =
    read_value_append decode options int_column (4 ∷ 7 ∷ 0 ∷ 0 ∷ 0 ∷ []) (1 ∷ []) 0 (omega arith)
      int_column-IsInModel

-- A body of two bytes, cut within its first length.
abbrev body : Parser
body = record {
  buffer = unknown_plp_len ++ (2 ∷ 0 ∷ []);
  position = 0;
  chunks = (0 ∷ 0 ∷ 7 ∷ 8 ∷ 0 ∷ 0 ∷ 0 ∷ 0 ∷ 5 ∷ []) ∷ [];
  columns = [];
  waited = false;
}

body-view : view body ≡ plp_layout (7 ∷ 8 ∷ []) ++ (5 ∷ [])
unfolding to_le
body-view = refl

read_plp_stream-plp_layout_example :
    Agrees body
      (result (some (chunks_of (7 ∷ 8 ∷ []))) (length (plp_layout (7 ∷ 8 ∷ []))))
      (read_plp_stream 1 body)
read_plp_stream-plp_layout_example =
    read_plp_stream-plp_layout 1 body (7 ∷ 8 ∷ []) (5 ∷ []) body-view (omega arith) (omega arith)
      (omega arith)
