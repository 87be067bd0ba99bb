-- ===== src/Token/EnvChange.antt =====
-- lib/token/env-change-token-parser.js. `console.error` is left out.
pub mod Stable
use tedious.Prelude.{
  ℕ, ◌+◌, ◌-◌, ◌*◌, ◌^◌, Bool, true, false, not, ◌&&◌, ◌||◌, Option, none, some, List, [], ◌∷◌,
  ◌==◌, ltb, leb, if◌then◌else◌, length,
}
use tedious.Prelude.Int.{ℤ, pos, negsuc}
use tedious.Prelude.Double.{round_to, excess_bits}
use tedious.Buffer.{Buffer, JsString, slice, le, read_at, ucs2}
use tedious.Collation.{Collation, from_buffer}
use tedious.Read.{
  Read, Result, result, pure, throw, node, ◌>>=◌, ◌>>◌, require, read_uint8, read_uint16_le,
  read_b_var_char, read_b_var_byte, read_us_var_byte, unknown_protocol_byte,
}
use tedious.Token.{
  Token, EnvChangeData, Routing, env_change, database, language, charset,
  database_mirroring_partner, packet_size, begin_transaction, commit_transaction,
  rollback_transaction, reset_connection, collation_change, routing,
}

-- What parseInt skips: the white space and line ends of JavaScript.
abbrev is_space : ℕ → Bool
is_space c =
    (leb 9 c && leb c 13)
    || (c == 32)
    || (c == 0xa0)
    || (c == 0x1680)
    || (leb 0x2000 c && leb c 0x200a)
    || (c == 0x2028)
    || (c == 0x2029)
    || (c == 0x202f)
    || (c == 0x205f)
    || (c == 0x3000)
    || (c == 0xfeff)

unfoldable pub trim_start : JsString → JsString
trim_start [] = []
trim_start (c ∷ cs) = let rest = trim_start cs in if is_space c then rest else c ∷ cs

abbrev digit_of : ℕ → ℕ → Option ℕ
digit_of radix c =
    if leb 48 c && leb c 57
    then some (c - 48)
    else if (radix == 16) && leb 97 c && leb c 102
    then some (c - 87)
    else if (radix == 16) && leb 65 c && leb c 70
    then some (c - 55)
    else none

-- The digits from the left, as long as there are any; a string without digits is NaN.
unfoldable pub digits_from : ℕ → Option ℕ → JsString → Option ℕ
digits_from radix seen [] = seen
digits_from radix seen (c ∷ cs) =
    let before : ℕ = elim seen [ none ↦ 0 | some n ↦ n ] in
    let next = λ (d : ℕ). digits_from radix (some (before * radix + d)) cs in
    elim (digit_of radix c) [ none ↦ seen | some d ↦ next d ]

-- The magnitude as a double; 255 digits stay below 2 ^ 1024 + 53.
abbrev rounded : Option ℕ → Option ℕ
rounded none = none
rounded (some n) = some (round_to (2 ^ excess_bits 1024 n) n)

-- `0x` before hexadecimal digits.
unfoldable pub magnitude : JsString → Option ℕ
unfolding digits_from round_to excess_bits
magnitude [] = none
magnitude (c ∷ []) = rounded (digits_from 10 none (c ∷ []))
magnitude (c ∷ d ∷ cs) =
    if (c == 48) && ((d == 120) || (d == 88))
    then rounded (digits_from 16 none cs)
    else rounded (digits_from 10 none (c ∷ d ∷ cs))

abbrev positive : Option ℕ → Option ℤ
positive none = none
positive (some n) = some (pos n)

abbrev negative : Option ℕ → Option ℤ
negative none = none
negative (some n) = some (if n == 0 then pos 0 else negsuc (n - 1))

abbrev with_sign : JsString → Option ℤ
with_sign [] = none
with_sign (c ∷ cs) =
    if c == 45
    then negative (magnitude cs)
    else if c == 43
    then positive (magnitude cs)
    else positive (magnitude (c ∷ cs))

-- parseInt(s); NaN is `none`, and -0 is 0.
unfoldable pub parse_int : JsString → Option ℤ
unfolding trim_start magnitude
parse_int s = with_sign (trim_start s)

abbrev collation_of : Buffer → Option Collation
collation_of [] = none
collation_of (b ∷ bs) = some (from_buffer (b ∷ bs))

-- The body behind the type: the two values are strings, or byte arrays.
unfoldable pub read_strings : (JsString → JsString → EnvChangeData) → Read (Option EnvChangeData)
unfolding read_b_var_char ◌>>=◌ pure
read_strings change = do
  new_value ← read_b_var_char
  old_value ← read_b_var_char
  pure (some (change new_value old_value))

unfoldable pub read_bytes : (Buffer → Buffer → EnvChangeData) → Read (Option EnvChangeData)
unfolding read_b_var_byte ◌>>=◌ pure
read_bytes change = do
  new_value ← read_b_var_byte
  old_value ← read_b_var_byte
  pure (some (change new_value old_value))

abbrev pub route : Buffer → Buffer → ℕ → ℕ → EnvChangeData
route packet old_value port server_len =
    routing
      (record { protocol = 0; port = port; server = ucs2 (slice packet 5 (5 + server_len * 2)) })
      old_value

unfoldable pub read_routing : Read (Option EnvChangeData)
unfolding read_us_var_byte read_at le ucs2 node throw ◌>>=◌ pure
read_routing = do
  route_packet ← read_us_var_byte
  old_value ← read_us_var_byte
  protocol ← node (read_at 1 le route_packet 0)
  if not (protocol == 0) then throw unknown_protocol_byte else do
    port ← node (read_at 2 le route_packet 1)
    server_len ← node (read_at 2 le route_packet 3)
    pure (some (route route_packet old_value port server_len))

-- `new Result(undefined, offset + length - 1)`
unfoldable pub skip : ℕ → Read (Option EnvChangeData)
skip token_length buf offset = result none (offset + token_length - 1)

-- The table `types` with the switch on its names; TXN_ENDED (17) has no case and is skipped like an unknown type.
unfoldable pub read_new_and_old_value : ℕ → ℕ → Read (Option EnvChangeData)
unfolding parse_int from_buffer read_strings read_bytes read_routing skip
read_new_and_old_value token_length type =
    if type == 1
    then read_strings database
    else if type == 2
    then read_strings language
    else if type == 3
    then read_strings charset
    else if type == 4
    then read_strings (λ new old. packet_size (parse_int new) (parse_int old))
    else if type == 7
    then read_bytes (λ new old. collation_change (collation_of new) (collation_of old))
    else if type == 8
    then read_bytes begin_transaction
    else if type == 9
    then read_bytes commit_transaction
    else if type == 10
    then read_bytes rollback_transaction
    else if type == 13
    then read_strings database_mirroring_partner
    else if type == 18
    then read_bytes reset_connection
    else if type == 20
    then read_routing
    else skip token_length

unfoldable pub read_env_change : Read (Option EnvChangeData)
unfolding read_uint8 read_uint16_le require read_new_and_old_value ◌>>=◌
read_env_change = do
  token_length ← read_uint16_le
  require token_length
  type_number ← read_uint8
  read_new_and_old_value token_length type_number

abbrev token_of : Option EnvChangeData → Option Token
token_of none = none
token_of (some change) = some (env_change change)

unfoldable pub env_change_parser : Read (Option Token)
unfolding read_env_change ◌>>=◌ pure
env_change_parser = do change ← read_env_change; pure (token_of change)
