-- ===== src/Token/Order.antt =====
-- lib/token/order-token-parser.js.
pub mod Layout
use tedious.Prelude.{ℕ, zero, suc, ◌+◌, ◌/◌, List, [], ◌∷◌}
use tedious.Read.{Read, pure, ◌>>=◌, ◌>>◌, require, read_uint16_le}
use tedious.Read.Stable.{IsStable, bind-IsStable, pure-IsStable, weaken}
use tedious.Read.Fixed.{require-IsStable}
use tedious.Read.Variable.{read_uint16_le-IsStable}
use tedious.Token.{Token, order}

-- The rounds of `for (let i = 0; i < tokenLength; i += 2)` that are left.
unfoldable pub read_columns : ℕ → Read (List ℕ)
unfolding read_uint16_le ◌>>=◌ pure
read_columns zero = pure []
read_columns (suc k) = do column ← read_uint16_le; rest ← read_columns k; pure (column ∷ rest)

-- An odd token length has one round more than whole columns in the token.
unfoldable pub order_parser : Read Token
unfolding read_columns read_uint16_le require ◌>>=◌ pure
order_parser = do
  token_length ← read_uint16_le
  require token_length
  order_columns ← read_columns ((token_length + 1) / 2)
  pure (order order_columns)

read_columns-IsStable : (k : ℕ) → IsStable 0 (read_columns k)
unfolding read_columns
read_columns-IsStable zero = pure-IsStable _
read_columns-IsStable (suc k) =
    bind-IsStable _ _ read_uint16_le-IsStable
      λ c. bind-IsStable _ _ (read_columns-IsStable k) λ r. pure-IsStable _

pub order_parser-IsStable : {n : ℕ} → IsStable n (order_parser)
unfolding order_parser
order_parser-IsStable = bind-IsStable _ _ read_uint16_le-IsStable λ l.
    require-IsStable _ _ (weaken (bind-IsStable _ _ (read_columns-IsStable _) λ r. pure-IsStable _))
