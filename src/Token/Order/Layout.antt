-- ===== src/Token/Order/Layout.antt =====
-- An ORDER token as the protocol lays it out, read by lib/token/order-token-parser.js.
use tedious.Prelude.{
  ℕ, ◌+◌, ◌*◌, ◌/◌, ◌<◌, ◌≡◌, refl, List, [], ◌∷◌, ◌++◌, append-nil, length, length-append, All,
  arith,
}
use tedious.Buffer.{Buffer, to_le}
use tedious.Buffer.Endian.{length-to_le}
use tedious.Read.{result}
use tedious.Read.Complete.{Reads, bind-Reads, pure-Reads, require-Reads, uint16_le-Reads}
use tedious.Token.{order}
use tedious.Token.Order.{read_columns, order_parser}

-- The columns, two bytes each.
abbrev pub column_bytes : List ℕ → Buffer
column_bytes [] = []
column_bytes (c ∷ cs) = to_le 2 c ++ column_bytes cs

-- The length in bytes, and the columns.
abbrev pub order_layout : List ℕ → Buffer
order_layout cs = to_le 2 (2 * length cs) ++ column_bytes cs

length-column_bytes : (cs : List ℕ) → length (column_bytes cs) ≡ 2 * length cs
length-column_bytes [] = refl
length-column_bytes (c ∷ cs) =
    omega
      (arith, length-append (to_le 2 c) (column_bytes cs), length-to_le 2 c, length-column_bytes cs)

read_columns-Reads :
    (cs : List ℕ) → All (λ c. c < 65536) cs → Reads (read_columns (length cs)) (column_bytes cs) cs
unfolding read_columns
read_columns-Reads [] h = pure-Reads []
read_columns-Reads (c ∷ cs) h = rw⁻¹ (append-nil (column_bytes cs)) (
    bind-Reads _ _ (uint16_le-Reads c h.0)
      (bind-Reads _ _ (read_columns-Reads cs h.1) (pure-Reads (c ∷ cs))))

-- orderParser reads an ORDER token of fewer than 2 ^ 15 columns, each of 16 bits, anywhere in a buffer:
-- it returns the columns in their order and stops right behind them.
pub order_parser-layout :
    (cs : List ℕ) (front rest : Buffer)
    → length cs < 32768
    → All (λ c. c < 65536) cs
    → order_parser (front ++ (order_layout cs ++ rest)) (length front)
      ≡ result (order cs) (length front + length (order_layout cs))
unfolding order_parser
order_parser-layout cs front rest few fit = whole.at front rest
  where
    rounds : (2 * length cs + 1) / 2 ≡ length cs
    rounds = omega arith

    all_rounds : Reads (read_columns ((2 * length cs + 1) / 2)) (column_bytes cs) cs
    all_rounds = rw rounds (read_columns-Reads cs fit)

    whole : Reads (order_parser) (order_layout cs) (order cs)
    whole = rw⁻¹ (append-nil (column_bytes cs)) (
        bind-Reads _ (2 * length cs) (uint16_le-Reads (2 * length cs) (omega arith)) (
          require-Reads (2 * length cs)
            (omega (arith, length-append (column_bytes cs) [], length-column_bytes cs))
            (bind-Reads _ _ all_rounds (pure-Reads (order cs)))))
