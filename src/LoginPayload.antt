-- ===== src/LoginPayload.antt =====
-- lib/login7-payload.js: the buffer of a login. `undefined` is `none`, and an empty string counts as undefined.
pub mod Layout
pub mod Points
pub mod Sent
use tedious.Prelude.{
  ℕ, ◌+◌, ◌-◌, ◌*◌, ◌/◌, ◌%◌, ◌^◌, Bool, true, false, Option, none, some, List, [], ◌∷◌, ◌++◌,
  bit_and, bit_or, ltb, leb, ◌&&◌, length, take, replicate, map, if◌then◌else◌,
}
use tedious.Prelude.Int.{ℤ}
use tedious.Buffer.{Buffer, JsString, to_le, unsigned, ucs2_bytes}
use tedious.TrackingBuffer.{splice, fits_signed}

-- `fedAuth`, by its type, with `echo`, and whether the workflow is 'integrated' or the token.
pub data FedAuth : Type 0 where
  adal : Bool → Bool → FedAuth
  security_token : Bool → JsString → FedAuth

pub record Login7Payload : Type 0 where
  pub tds_version : ℕ
  pub packet_size : ℕ
  pub client_prog_ver : ℕ
  pub client_pid : ℕ
  pub connection_id : ℕ
  pub client_time_zone : ℤ
  pub client_lcid : ℕ
  pub read_only_intent : Bool
  pub init_db_fatal : Bool
  pub fed_auth : Option FedAuth
  pub hostname : Option JsString
  pub user_name : Option JsString
  pub password : Option JsString
  pub app_name : Option JsString
  pub server_name : Option JsString
  pub library_name : Option JsString
  pub language : Option JsString
  pub database : Option JsString
  pub client_id : Option Buffer
  pub sspi : Option Buffer
  pub attach_db_file : Option JsString
  pub change_password : Option JsString

unfoldable pub build_option_flags1 : Login7Payload → ℕ
build_option_flags1 p = bit_or 0xB0 (if p.init_db_fatal then 0x40 else 0x00)

unfoldable pub build_option_flags2 : Login7Payload → ℕ
build_option_flags2 p = elim p.sspi [ none ↦ 0x00 | some bytes ↦ 0x80 ]

unfoldable pub build_type_flags : Login7Payload → ℕ
build_type_flags p = if p.read_only_intent then 0x20 else 0x00

-- UNKNOWN_COLLATION_HANDLING and EXTENSION_USED.
unfoldable pub build_option_flags3 : ℕ
build_option_flags3 = bit_or 0x08 0x10

abbrev pub echo_flag : Bool → ℕ
echo_flag echo = if echo then 0x01 else 0x00

-- The length of a string is far below the bounds of these writes.
abbrev pub fed_auth_ext : Option FedAuth → Buffer
fed_auth_ext none = []
fed_auth_ext (some (adal echo integrated)) =
    0x02
    ∷ (to_le 4 2 ++ (bit_or (0x02 * 2) (echo_flag echo) ∷ (if integrated then 0x02 else 0x01) ∷ []))
fed_auth_ext (some (security_token echo token)) =
    0x02
    ∷ (to_le 4 (length (ucs2_bytes token) + 4 + 1)
        ++ (bit_or (0x01 * 2) (echo_flag echo)
            ∷ (to_le 4 (length (ucs2_bytes token)) ++ ucs2_bytes token)))

-- From TDS 7.4 on.
abbrev pub utf8_ext : ℕ → Buffer
utf8_ext tds_version = if leb 0x74000004 tds_version then 0x0a ∷ (to_le 4 1 ++ (0x01 ∷ [])) else []

unfoldable pub build_feature_ext : Login7Payload → Buffer
unfolding to_le ucs2_bytes
build_feature_ext p = fed_auth_ext p.fed_auth ++ (utf8_ext p.tds_version ++ (0xFF ∷ []))

-- `byte ^ 0xa5`: the bits of one, and not of both.
abbrev pub scramble_byte : ℕ → ℕ
scramble_byte byte =
    let swapped = byte % 16 * 16 + byte / 16 in bit_or swapped 0xa5 - bit_and swapped 0xa5

unfoldable pub scramble_password : Buffer → Buffer
scramble_password password = map scramble_byte password

-- What toBuffer has written to `fixedData`, up to `offset`; the bytes of the buffers that it has pushed.
pub record Login : Type 0 where
  pub fixed_data : Buffer
  pub data_offset : ℕ
  pub buffers : Buffer

abbrev pub Step : Type 0
Step = Login → Option Login

-- A write out of range throws.
abbrev pub checked_step : Bool → Login → Option Login
checked_step ok s = if ok then some s else none

abbrev pub write_fixed : Buffer → Login → Login
write_fixed bytes s = record {
  fixed_data = s.fixed_data ++ bytes;
  data_offset = s.data_offset;
  buffers = s.buffers;
}

unfoldable pub put : ℕ → ℕ → Step
unfolding to_le
put w value s = checked_step (ltb value (256 ^ w)) (write_fixed (to_le w value) s)

unfoldable pub put_int32 : ℤ → Step
unfolding to_le unsigned
put_int32 value s = checked_step (fits_signed 4 value) (write_fixed (to_le 4 (unsigned 4 value)) s)

unfoldable pub put_bytes_fixed : Buffer → Step
put_bytes_fixed bytes s = some (write_fixed bytes s)

-- `dataOffset` and a count in two bytes each; the bytes are pushed, and `dataOffset` goes on.
unfoldable pub entry : ℕ → ℕ → Buffer → Step
unfolding to_le
entry advance count bytes s = checked_step (ltb s.data_offset 65536 && ltb count 65536) (record {
  fixed_data = s.fixed_data ++ (to_le 2 s.data_offset ++ to_le 2 count);
  data_offset = s.data_offset + advance;
  buffers = s.buffers ++ bytes;
})

-- The fields of text; `scramble` is for the password.
abbrev pub text_of : Option JsString → JsString
text_of none = []
text_of (some s) = s

abbrev pub pushed : (Buffer → Buffer) → JsString → Step
pushed scramble s =
    entry (length (ucs2_bytes s)) (length (ucs2_bytes s) / 2) (scramble (ucs2_bytes s))

unfoldable pub put_text : (Buffer → Buffer) → JsString → Step
unfolding entry ucs2_bytes
put_text scramble [] s = entry 0 0 [] s
put_text scramble (c ∷ cs) s = pushed scramble (c ∷ cs) s

-- Without a host name the source writes `dataOffset` in the place of its length.
unfoldable pub put_hostname : JsString → Step
unfolding entry ucs2_bytes
put_hostname [] s = entry 0 s.data_offset [] s
put_hostname (c ∷ cs) s = pushed (λ bytes. bytes) (c ∷ cs) s

unfoldable pub put_extensions : Buffer → Step
unfolding entry to_le
put_extensions extensions s =
    entry (4 + length extensions) 4 (to_le 4 (s.data_offset + 4) ++ extensions) s

-- `this.clientId.copy(fixedData, offset, 0, 6)`, over zeros.
abbrev pub client_id_bytes : Option Buffer → Buffer
client_id_bytes none = replicate 6 0
client_id_bytes (some bytes) = take 6 (bytes ++ replicate 6 0)

-- `dataOffset` stays behind the SSPI data.
unfoldable pub put_sspi : Option Buffer → Step
unfolding entry
put_sspi none s = entry 0 0 [] s
put_sspi (some bytes) s = entry 0 (if ltb 65535 (length bytes) then 65535 else length bytes) bytes s

abbrev pub sspi_long : Option Buffer → ℕ
sspi_long none = 0
sspi_long (some bytes) = if ltb 65535 (length bytes) then length bytes else 0

abbrev pub and_then : Option Login → Step → Option Login
and_then none f = none
and_then (some s) f = f s

unfoldable pub run : List Step → Step
run [] s = some s
run (f ∷ fs) s = and_then (f s) (run fs)

-- The writes of toBuffer, in their order.
abbrev pub steps : Login7Payload → List Step
steps p =
    put 4 0
    ∷ put 4 p.tds_version
    ∷ put 4 p.packet_size
    ∷ put 4 p.client_prog_ver
    ∷ put 4 p.client_pid
    ∷ put 4 p.connection_id
    ∷ put 1 (build_option_flags1 p)
    ∷ put 1 (build_option_flags2 p)
    ∷ put 1 (build_type_flags p)
    ∷ put 1 build_option_flags3
    ∷ put_int32 p.client_time_zone
    ∷ put 4 p.client_lcid
    ∷ put_hostname (text_of p.hostname)
    ∷ put_text (λ bytes. bytes) (text_of p.user_name)
    ∷ put_text scramble_password (text_of p.password)
    ∷ put_text (λ bytes. bytes) (text_of p.app_name)
    ∷ put_text (λ bytes. bytes) (text_of p.server_name)
    ∷ put_extensions (build_feature_ext p)
    ∷ put_text (λ bytes. bytes) (text_of p.library_name)
    ∷ put_text (λ bytes. bytes) (text_of p.language)
    ∷ put_text (λ bytes. bytes) (text_of p.database)
    ∷ put_bytes_fixed (client_id_bytes p.client_id)
    ∷ put_sspi p.sspi
    ∷ put_text (λ bytes. bytes) (text_of p.attach_db_file)
    ∷ put_text (λ bytes. bytes) (text_of p.change_password)
    ∷ put 4 (sspi_long p.sspi)
    ∷ []

-- `data.writeUInt32LE(data.length, 0)` on all the buffers.
abbrev pub with_total_length : Buffer → Option Buffer
with_total_length bytes =
    if ltb (length bytes) (256 ^ 4) then some (splice bytes 0 (to_le 4 (length bytes))) else none

abbrev pub finished : Option Login → Option Buffer
finished none = none
finished (some s) = with_total_length (s.fixed_data ++ s.buffers)

unfoldable pub to_buffer : Login7Payload → Option Buffer
unfolding run put put_int32 put_bytes_fixed put_hostname put_text put_extensions put_sspi to_le
    build_option_flags1 build_option_flags2 build_type_flags build_option_flags3 build_feature_ext
    scramble_password
to_buffer p = finished (run (steps p) (record { fixed_data = []; data_offset = 94; buffers = [] }))
