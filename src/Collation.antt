-- ===== src/Collation.antt =====
-- class Collation of lib/collation.js. Bytes missing from a short buffer are `undefined`, which the bitwise
-- operators read as 0.
pub mod Codepages
pub mod RoundTrip
use tedious.Prelude.{
  ℕ, ◌+◌, ◌*◌, ◌/◌, ◌^◌, Option, none, some, List, [], ◌∷◌, ◌==◌, if◌then◌else◌, bit_and, bit_or,
  get_or, get_elem?,
}
use tedious.Buffer.{Buffer}
use Codepages.{Codepage, utf8, codepage_by_language_id, codepage_by_sort_id}

unfoldable pub find_codepage : ℕ → List (ℕ × Codepage) → Option Codepage
find_codepage id [] = none
find_codepage id ((key, page) ∷ rest) = if key == id then some page else find_codepage id rest

pub record Collation : Type 0 where
  pub lcid : ℕ
  pub flags : ℕ
  pub version : ℕ
  pub sort_id : Option ℕ
  pub codepage : Option Codepage

-- `if (this.sortId)`: neither undefined nor 0.
abbrev by_sort_or_language : ℕ → Option ℕ → Option Codepage
by_sort_or_language lcid none = find_codepage (bit_and lcid 0xffff) codepage_by_language_id
by_sort_or_language lcid (some id) =
    if id == 0
    then find_codepage (bit_and lcid 0xffff) codepage_by_language_id
    else find_codepage id codepage_by_sort_id

-- The constructor.
unfoldable pub new_collation : ℕ → ℕ → ℕ → Option ℕ → Collation
unfolding find_codepage codepage_by_language_id codepage_by_sort_id
new_collation lcid flags version sort_id = record {
  lcid = lcid;
  flags = flags;
  version = version;
  sort_id = sort_id;
  codepage = if bit_and flags 0x40 == 0 then by_sort_or_language lcid sort_id else some utf8;
}

abbrev byte : Buffer → ℕ → ℕ
byte buf i = get_or buf i 0

-- Collation.fromBuffer(buffer)
unfoldable pub from_buffer : Buffer → Collation
unfolding new_collation
from_buffer buf =
    let high = bit_and (byte buf 2) 0x0f * 2 ^ 16 in
    let lcid = bit_or (bit_or high (byte buf 1 * 2 ^ 8)) (byte buf 0) in
    let flags = bit_or (bit_and (byte buf 3) 0x0f * 2 ^ 4) (bit_and (byte buf 2) 0xf0 / 2 ^ 4) in
    let version = bit_and (byte buf 3) 0xf0 / 2 ^ 4 in
    new_collation lcid flags version (get_elem? buf 4)

abbrev or_zero : Option ℕ → ℕ
or_zero none = 0
or_zero (some n) = n

-- collation.toBuffer()
unfoldable pub to_buffer : Collation → Buffer
to_buffer c =
    bit_and c.lcid 0xff
    ∷ bit_and (c.lcid / 2 ^ 8) 0xff
    ∷ bit_or (bit_and (c.flags) 0x0f * 2 ^ 4) (bit_and (c.lcid / 2 ^ 16) 0x0f)
    ∷ bit_or (bit_and c.version 0x0f * 2 ^ 4) (bit_and c.flags 0xf0 / 2 ^ 4)
    ∷ bit_and (or_zero c.sort_id) 0xff
    ∷ []
