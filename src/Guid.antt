-- ===== src/Guid.antt =====
-- lib/guid-parser.js: the text of a GUID and its 16 bytes. A character code is a number; the callers of
-- bufferToUpperCaseGuid and bufferToLowerCaseGuid give 16 bytes.
pub mod RoundTrip
use tedious.Prelude.{
  ℕ, ◌+◌, ◌-◌, ◌*◌, ◌/◌, ◌%◌, ◌&&◌, Option, none, some, List, [], ◌∷◌, ◌++◌, ltb, leb, get_or,
  get_elem?, if◌then◌else◌,
}
use tedious.Buffer.{Buffer, JsString}

-- A hexadecimal digit, with the letters from `a`: 55 + 10 is `A`, and 87 + 10 is `a`.
abbrev pub hex_digit : ℕ → ℕ → ℕ
hex_digit letters d = if ltb d 10 then 48 + d else letters + d

-- An entry of UPPER_CASE_MAP or LOWER_CASE_MAP.
abbrev pub hex_pair : ℕ → ℕ → JsString
hex_pair letters b = hex_digit letters (b / 16) ∷ hex_digit letters (b % 16) ∷ []

-- The entries for the bytes at these places of the buffer.
abbrev pub hex_of : ℕ → Buffer → List ℕ → JsString
hex_of letters buf [] = []
hex_of letters buf (i ∷ is) = hex_pair letters (get_or buf i 0) ++ hex_of letters buf is

abbrev pub guid_text : ℕ → Buffer → JsString
guid_text letters buf =
    hex_of letters buf (3 ∷ 2 ∷ 1 ∷ 0 ∷ [])
    ++ (45
        ∷ (hex_of letters buf (5 ∷ 4 ∷ [])
            ++ (45
                ∷ (hex_of letters buf (7 ∷ 6 ∷ [])
                    ++ (45
                        ∷ (hex_of letters buf (8 ∷ 9 ∷ [])
                            ++ (45 ∷ hex_of letters buf (10 ∷ 11 ∷ 12 ∷ 13 ∷ 14 ∷ 15 ∷ []))))))))

unfoldable pub buffer_to_upper_case_guid : Buffer → JsString
buffer_to_upper_case_guid buf = guid_text 55 buf

unfoldable pub buffer_to_lower_case_guid : Buffer → JsString
buffer_to_lower_case_guid buf = guid_text 87 buf

-- The value of one of `hexDigits`.
unfoldable pub digit_value : ℕ → Option ℕ
digit_value c =
    if leb 48 c && leb c 57
    then some (c - 48)
    else if leb 97 c && leb c 102
    then some (c - 87)
    else if leb 65 c && leb c 70
    then some (c - 55)
    else none

abbrev pub low_digit : ℕ → Option ℕ → Option ℕ
low_digit h none = none
low_digit h (some l) = some (h * 16 + l)

abbrev pub value_of : Option ℕ → Option ℕ
value_of none = none
value_of (some c) = digit_value c

-- CHARCODEMAP[a][b]: without an entry for `a` a TypeError, the outer `none`; without one for `b`, undefined.
abbrev pub char_code_map : Option ℕ → Option ℕ → Option (Option ℕ)
char_code_map none l = none
char_code_map (some h) l = some (low_digit h l)

abbrev pub cons_byte : Option (Option ℕ) → Option (List (Option ℕ)) → Option (List (Option ℕ))
cons_byte none rest = none
cons_byte (some b) none = none
cons_byte (some b) (some bs) = some (b ∷ bs)

-- The bytes whose two digits begin at these places of the text.
abbrev pub bytes_at : JsString → List ℕ → Option (List (Option ℕ))
bytes_at guid [] = some []
bytes_at guid (i ∷ is) =
    cons_byte (char_code_map (value_of (get_elem? guid i)) (value_of (get_elem? guid (i + 1))))
      (bytes_at guid is)

unfoldable pub guid_to_array : JsString → Option (List (Option ℕ))
unfolding digit_value
guid_to_array guid =
    bytes_at guid (6 ∷ 4 ∷ 2 ∷ 0 ∷ 11 ∷ 9 ∷ 16 ∷ 14 ∷ 19 ∷ 21 ∷ 24 ∷ 26 ∷ 28 ∷ 30 ∷ 32 ∷ 34 ∷ [])
