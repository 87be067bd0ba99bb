-- ===== src/Token/Sspi.antt =====
-- lib/token/sspi-token-parser.js.
use tedious.Prelude.{ℕ, suc, ◌-◌, Option, none, some, length}
use tedious.Prelude.Int.{ℤ, pos, negsuc, ◌+ℤ◌}
use tedious.Buffer.{Buffer, slice, le, signed, read_at, ucs2}
use tedious.Read.{Read, pure, ◌>>=◌, ◌>>◌, require, advance, node, read_uint16_le}
use tedious.Read.Stable.{IsStable}
use tedious.Read.Variable.{stable_rules}
use tedious.Token.{Token, Challenge, sspi}

-- An end of a slice: a negative one counts from the end of the buffer.
abbrev pub clamp : ℕ → ℤ → ℕ
clamp n (pos i) = i
clamp n (negsuc i) = n - suc i

-- buffer.slice(start, end) for any integers.
abbrev pub slice_ℤ : Buffer → ℤ → ℤ → Buffer
slice_ℤ buf start end = slice buf (clamp (length buf) start) (clamp (length buf) end)

abbrev pub int16_at : Buffer → ℕ → Option ℤ
int16_at buffer offset = read_at 2 (λ b. signed 2 (le b)) buffer offset

abbrev pub int32_at : Buffer → ℕ → Option ℤ
int32_at buffer offset = read_at 4 (λ b. signed 4 (le b)) buffer offset

-- The fields of fixed length behind `magic`, in the order in which they are read.
abbrev pub with_lengths :
    Buffer
    → Option ℤ
    → Option ℤ
    → Option ℤ
    → Option ℤ
    → Option ℤ
    → Option ℤ
    → Option ℤ
    → Option ℤ
    → Option Challenge
with_lengths buffer (some type) (some domain_len) (some domain_max) (some domain_offset)
      (some flags) (some target_len) (some target_max) (some target_offset) =
    some (record {
      magic = slice buffer 0 8;
      type = type;
      domain_len = domain_len;
      domain_max = domain_max;
      domain_offset = domain_offset;
      flags = flags;
      nonce = slice buffer 24 32;
      zeroes = slice buffer 32 40;
      target_len = target_len;
      target_max = target_max;
      target_offset = target_offset;
      odd_data = slice buffer 48 56;
      domain = ucs2 (slice_ℤ buffer (pos 56) (pos 56 +ℤ domain_len));
      target = slice_ℤ buffer (pos 56 +ℤ domain_len) (pos 56 +ℤ domain_len +ℤ target_len);
    })
with_lengths buffer a b c d e f g h = none

-- Without all its fields a RangeError, `none`.
unfoldable pub parse_challenge : Buffer → Option Challenge
unfolding read_at le signed ucs2 ◌+ℤ◌
parse_challenge buffer =
    with_lengths buffer (int32_at buffer 8) (int16_at buffer 12) (int16_at buffer 14)
      (int32_at buffer 16) (int32_at buffer 20) (int16_at buffer 40) (int16_at buffer 42)
      (int32_at buffer 44)

unfoldable pub sspi_parser : Read Token
unfolding parse_challenge read_uint16_le require advance node ◌>>=◌ pure
sspi_parser = do
  token_length ← read_uint16_le
  require token_length
  challenge_bytes ← advance token_length
  challenge ← node (parse_challenge challenge_bytes)
  pure (sspi challenge challenge_bytes)

pub sspi_parser-IsStable : {n : ℕ} → IsStable n sspi_parser
unfolding sspi_parser
sspi_parser-IsStable = search stable_rules depth 12
