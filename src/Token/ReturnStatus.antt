-- ===== src/Token/ReturnStatus.antt =====
-- lib/token/returnstatus-token-parser.js.
use tedious.Prelude.{ℕ}
use tedious.Read.{Read, pure, ◌>>=◌, read_int32_le}
use tedious.Read.Stable.{IsStable}
use tedious.Read.Variable.{stable_rules}
use tedious.Token.{Token, return_status}

unfoldable pub return_status_parser : Read Token
unfolding read_int32_le ◌>>=◌ pure
return_status_parser = do value ← read_int32_le; pure (return_status value)

pub return_status_parser-IsStable : {n : ℕ} → IsStable n return_status_parser
unfolding return_status_parser
return_status_parser-IsStable = search stable_rules depth 9
