-- ===== src/Token/LoginAck.antt =====
-- lib/token/loginack-token-parser.js, with the table of lib/tds-versions.js.
use tedious.Prelude.{ℕ, Option, none, some, List, [], ◌∷◌, ◌==◌, if◌then◌else◌}
use tedious.Buffer.{JsString}
use tedious.Read.{
  Read, pure, ◌>>=◌, ◌>>◌, require, read_uint8, read_uint16_le, read_uint32_be, read_b_var_char,
}
use tedious.Read.Stable.{IsStable}
use tedious.Read.Variable.{stable_rules}
use tedious.Token.{Token, login_ack}

-- A key of an object that maps numbers to strings.
unfoldable pub lookup : ℕ → List (ℕ × JsString) → Option JsString
lookup n [] = none
lookup n ((k, v) ∷ rest) = if k == n then some v else lookup n rest

-- 'SQL_DFLT' and 'SQL_TSQL'.
abbrev pub interface_types : List (ℕ × JsString)
interface_types =
    (0, 83 ∷ 81 ∷ 76 ∷ 95 ∷ 68 ∷ 70 ∷ 76 ∷ 84 ∷ [])
    ∷ (1, 83 ∷ 81 ∷ 76 ∷ 95 ∷ 84 ∷ 83 ∷ 81 ∷ 76 ∷ [])
    ∷ []

-- '7_1', '7_2', '7_3_A', '7_3_B', '7_4' and '8_0'.
abbrev pub versions_by_value : List (ℕ × JsString)
versions_by_value =
    (0x71000001, 55 ∷ 95 ∷ 49 ∷ [])
    ∷ (0x72090002, 55 ∷ 95 ∷ 50 ∷ [])
    ∷ (0x730A0003, 55 ∷ 95 ∷ 51 ∷ 95 ∷ 65 ∷ [])
    ∷ (0x730B0003, 55 ∷ 95 ∷ 51 ∷ 95 ∷ 66 ∷ [])
    ∷ (0x74000004, 55 ∷ 95 ∷ 52 ∷ [])
    ∷ (0x08000000, 56 ∷ 95 ∷ 48 ∷ [])
    ∷ []

unfoldable pub login_ack_parser : Read Token
unfolding lookup read_uint8 read_uint16_le read_uint32_be read_b_var_char require ◌>>=◌ pure
login_ack_parser = do
  token_length ← read_uint16_le
  require token_length
  interface_number ← read_uint8
  tds_version_number ← read_uint32_be
  prog_name ← read_b_var_char
  major ← read_uint8
  minor ← read_uint8
  build_num_hi ← read_uint8
  build_num_low ← read_uint8
  pure (
      login_ack (record {
        interface = lookup interface_number interface_types;
        tds_version = lookup tds_version_number versions_by_value;
        prog_name = prog_name;
        prog_version = record {
          major = major;
          minor = minor;
          build_num_hi = build_num_hi;
          build_num_low = build_num_low;
        };
      }))

pub login_ack_parser-IsStable : {n : ℕ} → IsStable n login_ack_parser
unfolding login_ack_parser
login_ack_parser-IsStable = search stable_rules depth 20
