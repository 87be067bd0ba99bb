-- ===== src/Read/Variable.antt =====
-- The readers of lib/token/helpers.js on a buffer that grows.
use tedious.Prelude.{ℕ, ◌≤◌, arith}
use tedious.Read.{
  read_uint8, read_uint16_le, read_int16_le, read_uint24_le, read_uint32_le, read_uint32_be,
  read_uint40_le, read_int32_le, read_big_uint64_le, read_big_int64_le, read_float_le,
  read_double_le, read_b_var_char, read_b_var_byte, read_us_var_char, read_us_var_byte,
  read_unumeric64_le, read_unumeric96_le, read_unumeric128_le,
}
use tedious.Read.Stable.{IsStable, bind-IsStable, pure-IsStable, throw-IsStable, if-IsStable}
use tedious.Read.Fixed.{
  fixed-IsStable, require-IsStable, advance-IsStable, advance-bind-IsStable,
  node_read-bind-IsStable, node-IsStable,
}

module _ {n : ℕ} where
  pub read_uint8-IsStable : IsStable n read_uint8
  unfolding read_uint8
  read_uint8-IsStable = fixed-IsStable _ _

  pub read_uint16_le-IsStable : IsStable n read_uint16_le
  unfolding read_uint16_le
  read_uint16_le-IsStable = fixed-IsStable _ _

  pub read_int16_le-IsStable : IsStable n read_int16_le
  unfolding read_int16_le
  read_int16_le-IsStable = fixed-IsStable _ _

  pub read_uint24_le-IsStable : IsStable n read_uint24_le
  unfolding read_uint24_le
  read_uint24_le-IsStable = fixed-IsStable _ _

  pub read_uint32_le-IsStable : IsStable n read_uint32_le
  unfolding read_uint32_le
  read_uint32_le-IsStable = fixed-IsStable _ _

  pub read_uint32_be-IsStable : IsStable n read_uint32_be
  unfolding read_uint32_be
  read_uint32_be-IsStable = fixed-IsStable _ _

  pub read_uint40_le-IsStable : IsStable n read_uint40_le
  unfolding read_uint40_le
  read_uint40_le-IsStable = fixed-IsStable _ _

  pub read_int32_le-IsStable : IsStable n read_int32_le
  unfolding read_int32_le
  read_int32_le-IsStable = fixed-IsStable _ _

  pub read_big_uint64_le-IsStable : IsStable n read_big_uint64_le
  unfolding read_big_uint64_le
  read_big_uint64_le-IsStable = fixed-IsStable _ _

  pub read_big_int64_le-IsStable : IsStable n read_big_int64_le
  unfolding read_big_int64_le
  read_big_int64_le-IsStable = fixed-IsStable _ _

  pub read_float_le-IsStable : IsStable n read_float_le
  unfolding read_float_le
  read_float_le-IsStable = fixed-IsStable _ _

  pub read_double_le-IsStable : IsStable n read_double_le
  unfolding read_double_le
  read_double_le-IsStable = fixed-IsStable _ _

pub le_self : (n : ℕ) → n ≤ n
le_self n = omega arith

ruleset slice_rules = (
  read_uint8-IsStable, read_uint16_le-IsStable, bind-IsStable, require-IsStable,
  advance-bind-IsStable, advance-IsStable, pure-IsStable, le_self,
)

module _ {n : ℕ} where
  pub read_b_var_char-IsStable : IsStable n read_b_var_char
  unfolding read_b_var_char
  read_b_var_char-IsStable = search slice_rules depth 9

  pub read_b_var_byte-IsStable : IsStable n read_b_var_byte
  unfolding read_b_var_byte
  read_b_var_byte-IsStable = search slice_rules depth 9

  pub read_us_var_char-IsStable : IsStable n read_us_var_char
  unfolding read_us_var_char
  read_us_var_char-IsStable = search slice_rules depth 9

  pub read_us_var_byte-IsStable : IsStable n read_us_var_byte
  unfolding read_us_var_byte
  read_us_var_byte-IsStable = search slice_rules depth 9

  pub read_unumeric64_le-IsStable : IsStable n read_unumeric64_le
  unfolding read_unumeric64_le
  read_unumeric64_le-IsStable = require-IsStable _ _ (
      node_read-bind-IsStable _ _ _ (omega arith)
        λ low. node_read-bind-IsStable _ _ _ (omega arith) λ high. pure-IsStable _)

  pub read_unumeric96_le-IsStable : IsStable n read_unumeric96_le
  unfolding read_unumeric96_le
  read_unumeric96_le-IsStable = require-IsStable _ _ (
      node_read-bind-IsStable _ _ _ (omega arith) λ a.
        node_read-bind-IsStable _ _ _ (omega arith)
          λ b. node_read-bind-IsStable _ _ _ (omega arith) λ c. pure-IsStable _)

  pub read_unumeric128_le-IsStable : IsStable n read_unumeric128_le
  unfolding read_unumeric128_le
  read_unumeric128_le-IsStable = require-IsStable _ _ (
      node_read-bind-IsStable _ _ _ (omega arith) λ a.
        node_read-bind-IsStable _ _ _ (omega arith) λ b.
          node_read-bind-IsStable _ _ _ (omega arith)
            λ c. node_read-bind-IsStable _ _ _ (omega arith) λ d. pure-IsStable _)

-- The rules by which the parsers' `do` blocks are stable.
pub ruleset stable_rules = (
  pure-IsStable, throw-IsStable, if-IsStable, node-IsStable, bind-IsStable, require-IsStable,
  advance-bind-IsStable, advance-IsStable, le_self, read_uint8-IsStable, read_uint16_le-IsStable,
  read_uint32_le-IsStable, read_uint32_be-IsStable, read_int32_le-IsStable,
  read_big_uint64_le-IsStable, read_b_var_char-IsStable, read_b_var_byte-IsStable,
  read_us_var_char-IsStable, read_us_var_byte-IsStable,
)
