-- ===== src/DataType.antt =====
-- The data types as lib/data-type.js lists them in TYPE: of each object of lib/data-types/ the `id`, the
-- `name` (the constructor here) and `hasTableName`.
use tedious.Prelude.{ℕ, Bool, true, false, Option, none, some, List, [], ◌∷◌, ◌==◌, if◌then◌else◌}

pub data DataType : Type 0 where
  null tiny_int bit small_int int small_date_time real money date_time float decimal : DataType
  numeric small_money big_int image text unique_identifier int_n n_text bit_n decimal_n : DataType
  numeric_n float_n money_n date_time_n var_binary var_char binary char n_var_char n_char : DataType
  xml time date date_time2 date_time_offset udt tvp variant : DataType

-- The ids.
unfoldable pub type_id : DataType → ℕ
type_id null = 0x1f
type_id tiny_int = 0x30
type_id bit = 0x32
type_id small_int = 0x34
type_id int = 0x38
type_id small_date_time = 0x3a
type_id real = 0x3b
type_id money = 0x3c
type_id date_time = 0x3d
type_id float = 0x3e
type_id decimal = 0x37
type_id numeric = 0x3f
type_id small_money = 0x7a
type_id big_int = 0x7f
type_id image = 0x22
type_id text = 0x23
type_id unique_identifier = 0x24
type_id int_n = 0x26
type_id n_text = 0x63
type_id bit_n = 0x68
type_id decimal_n = 0x6a
type_id numeric_n = 0x6c
type_id float_n = 0x6d
type_id money_n = 0x6e
type_id date_time_n = 0x6f
type_id var_binary = 0xa5
type_id var_char = 0xa7
type_id binary = 0xad
type_id char = 0xaf
type_id n_var_char = 0xe7
type_id n_char = 0xef
type_id xml = 0xf1
type_id time = 0x29
type_id date = 0x28
type_id date_time2 = 0x2a
type_id date_time_offset = 0x2b
type_id udt = 0xf0
type_id tvp = 0xf3
type_id variant = 0x62

-- The values of TYPE, in its order.
abbrev pub types : List DataType
types =
    null ∷ tiny_int ∷ bit ∷ small_int ∷ int ∷ small_date_time ∷ real ∷ money ∷ date_time ∷ float
    ∷ decimal ∷ numeric ∷ small_money ∷ big_int ∷ image ∷ text ∷ unique_identifier ∷ int_n ∷ n_text
    ∷ bit_n ∷ decimal_n ∷ numeric_n ∷ float_n ∷ money_n ∷ date_time_n ∷ var_binary ∷ var_char
    ∷ binary ∷ char ∷ n_var_char ∷ n_char ∷ xml ∷ time ∷ date ∷ date_time2 ∷ date_time_offset ∷ udt
    ∷ tvp ∷ variant ∷ []

unfoldable pub find_type : ℕ → List DataType → Option DataType
unfolding type_id
find_type n [] = none
find_type n (t ∷ ts) = if type_id t == n then some t else find_type n ts

-- TYPE[typeNumber]
unfoldable pub type_of : ℕ → Option DataType
unfolding find_type
type_of n = find_type n types

unfoldable pub has_table_name : DataType → Bool
has_table_name image = true
has_table_name text = true
has_table_name n_text = true
has_table_name t = false
