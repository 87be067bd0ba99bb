-- ===== src/Token/FedAuthInfo.antt =====
-- lib/token/fedauth-info-parser.js.
use tedious.Prelude.{ℕ, zero, suc, ◌+◌, Option, none, some, ◌==◌, if◌then◌else◌}
use tedious.Buffer.{Buffer, JsString, slice, le, read_at, ucs2}
use tedious.Read.{Read, pure, ◌>>=◌, ◌>>◌, require, advance, node, read_uint32_le}
use tedious.Read.Stable.{IsStable}
use tedious.Read.Variable.{stable_rules}
use tedious.Token.{Token, fed_auth_info}

-- `spn` and `stsurl`.
pub record Infos : Type 0 where
  pub spn : Option JsString
  pub stsurl : Option JsString

-- `switch (fedauthInfoID)`
abbrev pub with_info : ℕ → JsString → Infos → Infos
with_info id text infos =
    if id == 0x02
    then record { spn = some text; stsurl = infos.stsurl }
    else if id == 0x01
    then record { spn = infos.spn; stsurl = some text }
    else infos

-- The id, the length and the offset of an entry.
abbrev pub add_info : Buffer → Option ℕ → Option ℕ → Option ℕ → Infos → Option Infos
add_info bytes (some id) (some length) (some offset) infos =
    some (with_info id (ucs2 (slice bytes offset (offset + length))) infos)
add_info bytes a b c infos = none

abbrev pub number_at : ℕ → Buffer → ℕ → Option ℕ
number_at w bytes offset = read_at w le bytes offset

-- The rounds of the loop that are left.
unfoldable pub read_infos : ℕ → Buffer → ℕ → Option Infos → Option Infos
unfolding read_at le ucs2
read_infos zero bytes offset infos = infos
read_infos (suc k) bytes offset none = none
read_infos (suc k) bytes offset (some infos) = read_infos k bytes (offset + 9) (
    add_info bytes (number_at 1 bytes offset) (number_at 4 bytes (offset + 1))
      (number_at 4 bytes (offset + 5)) infos)

abbrev pub counted_infos : Buffer → Option ℕ → Option Infos
counted_infos bytes none = none
counted_infos bytes (some count) =
    read_infos count bytes 4 (some (record { spn = none; stsurl = none }))

-- `none` is the RangeError of Node's reads.
unfoldable pub read_fed_auth_info : Buffer → Option Infos
unfolding read_infos read_at le
read_fed_auth_info bytes = counted_infos bytes (number_at 4 bytes 0)

unfoldable pub fed_auth_info_parser : Read Token
unfolding read_fed_auth_info read_uint32_le require advance node ◌>>=◌ pure
fed_auth_info_parser = do
  token_length ← read_uint32_le
  require token_length
  bytes ← advance token_length
  infos ← node (read_fed_auth_info bytes)
  pure (fed_auth_info (infos.spn) (infos.stsurl))

pub fed_auth_info_parser-IsStable : {n : ℕ} → IsStable n fed_auth_info_parser
unfolding fed_auth_info_parser
fed_auth_info_parser-IsStable = search stable_rules depth 12
