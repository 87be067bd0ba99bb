-- ===== src/Value/Strings.antt =====
-- lib/value-parser.js: readBinary, readChars, readNChars, readUniqueIdentifier and readNumeric. iconv-lite is the
-- parameter `decode`.
use tedious.Prelude.{ℕ, ◌^◌, Bool, Option, none, some, ◌==◌, if◌then◌else◌}
use tedious.Buffer.{Buffer, JsString, ucs2}
use tedious.Collation.Codepages.{Codepage, utf8}
use tedious.Guid.{buffer_to_lower_case_guid, buffer_to_upper_case_guid}
use tedious.Metadata.{Options}
use tedious.Read.{
  Read, pure, throw, ◌>>=◌, ◌>>◌, require, advance, read_uint8, read_uint32_le, read_unumeric64_le,
  read_unumeric96_le, read_unumeric128_le, unsupported_numeric_length,
}
use tedious.Value.{JsValue, js_string, decimal_quotient, not_a_number}

unfoldable pub read_binary : ℕ → Read Buffer
unfolding require advance ◌>>=◌
read_binary data_length = do require data_length; advance data_length

abbrev pub codepage_or_utf8 : Option Codepage → Codepage
codepage_or_utf8 none = utf8
codepage_or_utf8 (some codepage) = codepage

unfoldable pub read_chars : (Codepage → Buffer → JsString) → ℕ → Option Codepage → Read JsValue
unfolding require advance ◌>>=◌ pure
read_chars decode data_length codepage = do
  require data_length
  chunk ← advance data_length
  pure (js_string (decode (codepage_or_utf8 codepage) chunk))

unfoldable pub read_nchars : ℕ → Read JsValue
unfolding require advance ucs2 ◌>>=◌ pure
read_nchars data_length = do
  require data_length
  chunk ← advance data_length
  pure (js_string (ucs2 chunk))

unfoldable pub read_unique_identifier : Options → Read JsValue
unfolding read_binary buffer_to_lower_case_guid buffer_to_upper_case_guid ◌>>=◌ pure
read_unique_identifier options = do
  chunk ← read_binary 0x10
  pure (
      js_string (
        if options.lower_case_guids
        then buffer_to_lower_case_guid chunk
        else buffer_to_upper_case_guid chunk))

-- The chain of tests on dataLength.
unfoldable pub read_magnitude : ℕ → Read ℕ
unfolding read_uint32_le read_unumeric64_le read_unumeric96_le read_unumeric128_le throw
read_magnitude data_length =
    if data_length == 5
    then read_uint32_le
    else if data_length == 9
    then read_unumeric64_le
    else if data_length == 13
    then read_unumeric96_le
    else if data_length == 17
    then read_unumeric128_le
    else throw (unsupported_numeric_length data_length)

-- `value * sign / Math.pow(10, scale)`
abbrev pub scaled : Bool → ℕ → Option ℕ → JsValue
scaled sign value none = not_a_number
scaled sign value (some scale) = decimal_quotient sign value (10 ^ scale)

unfoldable pub read_numeric : ℕ → Option ℕ → Read JsValue
unfolding read_uint8 read_magnitude ◌>>=◌ pure
read_numeric data_length scale = do
  sign ← read_uint8
  value ← read_magnitude data_length
  pure (scaled (sign == 1) value scale)
