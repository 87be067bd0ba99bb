-- ===== src/Prelogin.antt =====
-- lib/prelogin-payload.js: the options of a prelogin message, built and read.
pub mod Built
pub mod RoundTrip
use tedious.Prelude.{
  ℕ, zero, suc, ◌+◌, ◌*◌, Bool, true, false, Option, none, some, List, [], ◌∷◌, ◌++◌, ltb, ◌==◌,
  length, get_elem?, replicate, if◌then◌else◌,
}
use tedious.Buffer.{Buffer, JsString, be, to_be, read_at}
use tedious.TrackingBuffer.{
  Tracker, Write, ◌>>◌, new_tracker, data_of, splice, ucs2_encoding, write_uint8, write_uint16_be,
  write_uint32_be,
}
use tedious.Payload.{yielded}

pub record Version : Type 0 where
  pub major : ℕ
  pub minor : ℕ
  pub build : ℕ
  pub subbuild : ℕ

-- `options`
pub record PreloginOptions : Type 0 where
  pub encrypt : Bool
  pub version : Version

-- `{ token, data }`
pub record PreloginOption : Type 0 where
  pub token : ℕ
  pub bytes : Buffer

-- The fields that are read; `undefined` is `none`.
pub record Prelogin : Type 0 where
  pub version : Option Version
  pub encryption : Option ℕ
  pub encryption_string : Option JsString
  pub instance_option : Option ℕ
  pub thread_id : Option ℕ
  pub mars : Option ℕ
  pub mars_string : Option JsString
  pub fed_auth_required : Option ℕ

-- What is written to `new WritableTrackingBuffer(optionBufferSize)`.
abbrev pub buffered : Write → Option Buffer
buffered f = yielded (f (new_tracker 20 ucs2_encoding false))

unfoldable pub create_version_option : Version → Option Buffer
unfolding write_uint8 write_uint16_be new_tracker data_of ◌>>◌
create_version_option v = buffered (
    write_uint8 v.major
    >> write_uint8 v.minor
    >> write_uint16_be v.build
    >> write_uint16_be v.subbuild)

unfoldable pub create_encryption_option : Bool → Option Buffer
unfolding write_uint8 new_tracker data_of
create_encryption_option encrypt = buffered (if encrypt then write_uint8 0x01 else write_uint8 0x02)

-- The instance, MARS and federated authentication: a byte.
unfoldable pub create_byte_option : ℕ → Option Buffer
unfolding write_uint8 new_tracker data_of
create_byte_option value = buffered (write_uint8 value)

unfoldable pub create_thread_id_option : Option Buffer
unfolding write_uint32_be new_tracker data_of
create_thread_id_option = buffered (write_uint32_be 0)

-- None, if a write of one of them throws.
abbrev pub and_option :
    ℕ → Option Buffer → Option (List PreloginOption) → Option (List PreloginOption)
and_option token none os = none
and_option token (some bytes) none = none
and_option token (some bytes) (some os) = some (record { token = token; bytes = bytes } ∷ os)

unfoldable pub all_options : PreloginOptions → Option (List PreloginOption)
unfolding create_version_option create_encryption_option create_byte_option create_thread_id_option
all_options o = and_option 0x00 (create_version_option o.version) (
    and_option 0x01 (create_encryption_option o.encrypt) (
      and_option 0x02 (create_byte_option 0x00) (
        and_option 0x03 create_thread_id_option (
          and_option 0x04 (create_byte_option 0x00)
            (and_option 0x06 (create_byte_option 0x01) (some []))))))

-- The first loop of createOptions.
unfoldable pub total_option_length : List PreloginOption → ℕ
total_option_length [] = 0
total_option_length (o ∷ os) = 5 + length o.bytes + total_option_length os

-- The second loop, and the terminator. With the six options the offsets stay below 65536.
unfoldable pub place_options : List PreloginOption → ℕ → ℕ → Buffer → Buffer
unfolding to_be
place_options [] option_offset option_data_offset buf = splice buf option_offset (0xFF ∷ [])
place_options (o ∷ os) option_offset option_data_offset buf =
    place_options os (option_offset + 5) (option_data_offset + length o.bytes) (
      splice
        (splice
          (splice (splice buf option_offset (o.token ∷ [])) (option_offset + 1)
            (to_be 2 option_data_offset))
          (option_offset + 3) (to_be 2 (length o.bytes)))
        option_data_offset o.bytes)

abbrev pub laid_out : Option (List PreloginOption) → Option Buffer
laid_out none = none
laid_out (some os) =
    some (place_options os 0 (5 * length os + 1) (replicate (total_option_length os + 1) 0))

unfoldable pub create_options : PreloginOptions → Option Buffer
unfolding all_options place_options total_option_length
create_options o = laid_out (all_options o)

-- `encryptByValue`, `marsByValue`
abbrev pub encrypt_by_value : ℕ → Option JsString
encrypt_by_value n =
    if n == 0
    then some (0x4f ∷ 0x46 ∷ 0x46 ∷ [])
    else if n == 1
    then some (0x4f ∷ 0x4e ∷ [])
    else if n == 2
    then some (0x4e ∷ 0x4f ∷ 0x54 ∷ 0x5f ∷ 0x53 ∷ 0x55 ∷ 0x50 ∷ [])
    else if n == 3
    then some (0x52 ∷ 0x45 ∷ 0x51 ∷ [])
    else none

abbrev pub mars_by_value : ℕ → Option JsString
mars_by_value n =
    if n == 0
    then some (0x4f ∷ 0x46 ∷ 0x46 ∷ [])
    else if n == 1
    then some (0x4f ∷ 0x4e ∷ [])
    else none

abbrev pub read_u8 : Buffer → ℕ → Option ℕ
read_u8 = read_at 1 be

abbrev pub read_u16 : Buffer → ℕ → Option ℕ
read_u16 = read_at 2 be

-- A read that throws ends the extraction.
abbrev pub store : {A : Type 0} → Option A → (A → Prelogin) → Option Prelogin
store none f = none
store (some a) f = some (f a)

unfoldable pub read_version : Buffer → ℕ → Option Version
unfolding read_at
read_version buf offset = elim (read_u8 buf offset) [
  | none ↦ none
  | some major ↦ elim (read_u8 buf (offset + 1)) [
    | none ↦ none
    | some minor ↦ elim (read_u16 buf (offset + 2)) [
      | none ↦ none
      | some build ↦ elim (read_u16 buf (offset + 4)) [
        | none ↦ none
        | some subbuild ↦
            some (record { major = major; minor = minor; build = build; subbuild = subbuild })
      ]
    ]
  ]
]

unfoldable pub extract_version : Buffer → ℕ → Prelogin → Option Prelogin
unfolding read_version
extract_version buf offset p = store (read_version buf offset) λ v. record p { version = some v }

unfoldable pub extract_encryption : Buffer → ℕ → Prelogin → Option Prelogin
unfolding read_at
extract_encryption buf offset p =
    store (read_u8 buf offset)
      λ n. record p { encryption = some n; encryption_string = encrypt_by_value n }

unfoldable pub extract_instance : Buffer → ℕ → Prelogin → Option Prelogin
unfolding read_at
extract_instance buf offset p =
    store (read_u8 buf offset) λ n. record p { instance_option = some n }

unfoldable pub extract_thread_id : Buffer → ℕ → Prelogin → Option Prelogin
unfolding read_at
extract_thread_id buf offset p =
    store (read_at 4 be buf offset) λ n. record p { thread_id = some n }

unfoldable pub extract_mars : Buffer → ℕ → Prelogin → Option Prelogin
unfolding read_at
extract_mars buf offset p =
    store (read_u8 buf offset) λ n. record p { mars = some n; mars_string = mars_by_value n }

unfoldable pub extract_fed_auth : Buffer → ℕ → Prelogin → Option Prelogin
unfolding read_at
extract_fed_auth buf offset p =
    store (read_u8 buf offset) λ n. record p { fed_auth_required = some n }

-- The switch of extractOptions.
unfoldable pub extract_option : ℕ → Buffer → ℕ → ℕ → Prelogin → Option Prelogin
unfolding extract_version extract_encryption extract_instance extract_thread_id extract_mars
    extract_fed_auth
extract_option token buf data_offset data_length p =
    if token == 0x00
    then extract_version buf data_offset p
    else if token == 0x01
    then extract_encryption buf data_offset p
    else if token == 0x02
    then extract_instance buf data_offset p
    else if token == 0x03
    then (if ltb 0 data_length then extract_thread_id buf data_offset p else some p)
    else if token == 0x04
    then extract_mars buf data_offset p
    else if token == 0x06
    then extract_fed_auth buf data_offset p
    else some p

-- What the loop ends with: the rounds of the model used up, Node's RangeError, or what was read.
pub data Extraction : Type 0 where
  out_of_rounds out_of_range : Extraction
  read : Prelogin → Extraction

-- The reads at the head of a round, and the round; behind the end of the buffer a read throws.
abbrev pub at_entry : Option ℕ → Option ℕ → (ℕ → ℕ → Extraction) → Extraction
at_entry none data_length f = out_of_range
at_entry (some data_offset) none f = out_of_range
at_entry (some data_offset) (some data_length) f = f data_offset data_length

abbrev pub and_next : Option Prelogin → (Prelogin → Extraction) → Extraction
and_next none f = out_of_range
and_next (some p) f = f p

-- The loop of extractOptions. A round has five bytes, so the length of the buffer is fuel enough.
unfoldable pub extract_loop : ℕ → Buffer → ℕ → Prelogin → Extraction
unfolding read_at extract_option
extract_loop zero buf offset p = out_of_rounds
extract_loop (suc fuel) buf offset p = elim (get_elem? buf offset) [
  | none ↦ out_of_range
  | some token ↦
      if token == 0xFF
      then read p
      else at_entry (read_u16 buf (offset + 1)) (read_u16 buf (offset + 3))
          λ data_offset data_length.
            and_next (extract_option token buf data_offset data_length p)
              (extract_loop fuel buf (offset + 5))
]

abbrev pub nothing_read : Prelogin
nothing_read = record {
  version = none;
  encryption = none;
  encryption_string = none;
  instance_option = none;
  thread_id = none;
  mars = none;
  mars_string = none;
  fed_auth_required = none;
}

abbrev pub read_of : Extraction → Option Prelogin
read_of (read p) = some p
read_of e = none

unfoldable pub extract_options : Buffer → Option Prelogin
unfolding extract_loop
extract_options buf = read_of (extract_loop (suc (length buf)) buf 0 nothing_read)

-- The constructor; a received message goes to extractOptions at once.
abbrev pub extracted : Option Buffer → Option Prelogin
extracted none = none
extracted (some buf) = extract_options buf

unfoldable pub prelogin : PreloginOptions → Option Prelogin
unfolding create_options extract_options
prelogin o = extracted (create_options o)
