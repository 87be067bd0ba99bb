-- ===== src/Buffer.antt =====
-- Node's Buffer as far as lib/ uses it: a buffer is the list of its bytes, and a read
-- out of range (Node's RangeError) is `none`. A JavaScript string is the list of its UTF-16 code units.
pub mod Window
pub mod Endian
use mathlib.Core.List.{reverse}
use tedious.Prelude.{
  ℕ, zero, suc, ◌+◌, ◌-◌, ◌*◌, ◌/◌, ◌%◌, ◌^◌, Bool, true, false, Option, none, some,
}
use tedious.Prelude.{List, [], ◌∷◌, ltb, leb, ◌&&◌, ◌||◌, ◌==◌, if◌then◌else◌, length, take, drop}
use tedious.Prelude.Int.{ℤ, pos, negsuc}

abbrev pub Buffer : Type 0
Buffer = List ℕ

abbrev pub JsString : Type 0
JsString = List ℕ

-- buffer.slice(start, end) for start ≤ end: an end past the buffer is cut.
abbrev pub slice : Buffer → ℕ → ℕ → Buffer
slice buf from to = take (to - from) (drop from buf)

-- The number that bytes stand for, least significant byte first.
unfoldable pub le : Buffer → ℕ
le [] = 0
le (b ∷ bs) = b + 256 * le bs

-- The `w` low bytes of a number, least significant byte first.
unfoldable pub to_le : ℕ → ℕ → Buffer
to_le zero v = []
to_le (suc w) v = (v % 256) ∷ to_le w (v / 256)

-- The same, most significant byte first.
unfoldable pub be : Buffer → ℕ
unfolding le
be bs = le (reverse bs)

unfoldable pub to_be : ℕ → ℕ → Buffer
unfolding to_le
to_be w v = reverse (to_le w v)

-- Two's complement over `w` bytes.
unfoldable pub signed : ℕ → ℕ → ℤ
signed w n = if ltb n (256 ^ w / 2) then pos n else negsuc (256 ^ w - n - 1)

unfoldable pub unsigned : ℕ → ℤ → ℕ
unsigned w (pos n) = n
unsigned w (negsuc n) = 256 ^ w - n - 1

-- A read of `w` bytes at an offset, decoded.
unfoldable pub read_at : {A : Type 0} → ℕ → (Buffer → A) → Buffer → ℕ → Option A
read_at w decode buf offset =
    if ltb (length buf) (offset + w) then none else some (decode (slice buf offset (offset + w)))

-- buf.toString('ucs2', …) of the bytes in range: two bytes a code unit, an odd last byte is dropped.
unfoldable pub ucs2 : Buffer → JsString
ucs2 [] = []
ucs2 (a ∷ []) = []
ucs2 (a ∷ b ∷ rest) = (a + 256 * b) ∷ ucs2 rest

unfoldable pub ucs2_bytes : JsString → Buffer
ucs2_bytes [] = []
ucs2_bytes (c ∷ cs) = (c % 256) ∷ (c / 256) ∷ ucs2_bytes cs

-- Buffer.from(s, 'ascii'): the low byte of each code unit.
unfoldable pub ascii_bytes : JsString → Buffer
ascii_bytes [] = []
ascii_bytes (c ∷ cs) = (c % 256) ∷ ascii_bytes cs

-- Of a code point above 0x7f.
abbrev pub utf8_2 : ℕ → Buffer → Buffer
utf8_2 c rest = (0xc0 + c / 64) ∷ (0x80 + c % 64) ∷ rest

abbrev pub utf8_3 : ℕ → Buffer → Buffer
utf8_3 c rest = (0xe0 + c / 4096) ∷ (0x80 + c / 64 % 64) ∷ (0x80 + c % 64) ∷ rest

abbrev pub utf8_4 : ℕ → Buffer → Buffer
utf8_4 c rest =
    (0xf0 + c / 262144) ∷ (0x80 + c / 4096 % 64) ∷ (0x80 + c / 64 % 64) ∷ (0x80 + c % 64) ∷ rest

abbrev pub is_high_surrogate : ℕ → Bool
is_high_surrogate c = leb 0xd800 c && ltb c 0xdc00

abbrev pub is_low_surrogate : ℕ → Bool
is_low_surrogate c = leb 0xdc00 c && ltb c 0xe000

-- One code unit that is no half of a pair; a lone surrogate becomes U+FFFD.
abbrev pub utf8_unit : ℕ → Buffer → Buffer
utf8_unit c rest =
    if ltb c 0x80
    then c ∷ rest
    else if ltb c 0x800
    then utf8_2 c rest
    else if is_high_surrogate c || is_low_surrogate c
    then utf8_3 0xfffd rest
    else utf8_3 c rest

-- Buffer.from(s, 'utf8')
unfoldable pub utf8_bytes : JsString → Buffer
utf8_bytes [] = []
utf8_bytes (c ∷ []) = utf8_unit c []
utf8_bytes (c ∷ d ∷ rest) =
    let pair = utf8_4 (0x10000 + (c - 0xd800) * 1024 + (d - 0xdc00)) (utf8_bytes rest) in
    let single = utf8_unit c (utf8_bytes (d ∷ rest)) in
    if is_high_surrogate c && is_low_surrogate d then pair else single

-- JavaScript's `<` on strings: by code units.
unfoldable pub str_lt : JsString → JsString → Bool
str_lt [] [] = false
str_lt [] (d ∷ ds) = true
str_lt (c ∷ cs) [] = false
str_lt (c ∷ cs) (d ∷ ds) = if c == d then str_lt cs ds else ltb c d
