-- ===== src/Token/InfoError.antt =====
-- lib/token/infoerror-token-parser.js: INFO and ERROR.
use tedious.Prelude.{ℕ, if◌then◌else◌}
use tedious.Read.{
  Read, pure, ◌>>=◌, ◌>>◌, require, read_uint8, read_uint16_le, read_uint32_le, read_b_var_char,
  read_us_var_char,
}
use tedious.Read.Stable.{IsStable, bind-IsStable, pure-IsStable}
use tedious.Read.Variable.{stable_rules}
use tedious.Metadata.{Options, before_7_2}
use tedious.Token.{Token, MessageData, info_message, error_message}

unfoldable pub read_message : Options → Read MessageData
unfolding require read_uint8 read_uint16_le read_uint32_le read_b_var_char read_us_var_char
    before_7_2 ◌>>=◌
read_message options = do
  token_length ← read_uint16_le
  require token_length
  number ← read_uint32_le
  state ← read_uint8
  clazz ← read_uint8
  message ← read_us_var_char
  server_name ← read_b_var_char
  proc_name ← read_b_var_char
  line_number ← if before_7_2 options then read_uint16_le else read_uint32_le
  pure (record {
    number = number;
    state = state;
    clazz = clazz;
    message = message;
    server_name = server_name;
    proc_name = proc_name;
    line_number = line_number;
  })

read_message-IsStable : {n : ℕ} (options : Options) → IsStable n (read_message options)
unfolding read_message
read_message-IsStable options = search stable_rules depth 20

unfoldable pub info_parser : Options → Read Token
unfolding read_message ◌>>=◌ pure
info_parser options = do value ← read_message options; pure (info_message value)

unfoldable pub error_parser : Options → Read Token
unfolding read_message ◌>>=◌ pure
error_parser options = do value ← read_message options; pure (error_message value)

module _ {n : ℕ} (options : Options) where
  pub info_parser-IsStable : IsStable n (info_parser options)
  unfolding info_parser
  info_parser-IsStable = bind-IsStable _ _ (read_message-IsStable options) λ a. pure-IsStable _

  pub error_parser-IsStable : IsStable n (error_parser options)
  unfolding error_parser
  error_parser-IsStable = bind-IsStable _ _ (read_message-IsStable options) λ a. pure-IsStable _
