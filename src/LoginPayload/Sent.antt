-- ===== src/LoginPayload/Sent.antt =====
-- The buffer of Login7Payload.toBuffer of lib/login7-payload.js in full.
use tedious.Prelude.{
  ℕ, ◌+◌, ◌^◌, ◌<◌, ◌≡◌, refl, ap, ◌∙◌, true, false, Option, none, some, List, [], ◌∷◌, ◌++◌,
  append_assoc, length, length-append, length-take, length-replicate, take, bit_or, replicate, ltb,
  ltb-true, arith, if◌then◌else◌,
}
use tedious.Buffer.{Buffer, to_le, unsigned}
use tedious.Buffer.Endian.{length-to_le}
use tedious.TrackingBuffer.{splice, fits_signed}
use tedious.LoginPayload.{
  Login7Payload, text_of, client_id_bytes, sspi_long, steps, finished, to_buffer, with_total_length,
  build_feature_ext, build_option_flags1, build_option_flags2, build_type_flags,
  build_option_flags3, scramble_password,
}
use tedious.LoginPayload.Layout.{
  Field, heads, contents, total_advance, Each, run-Each, plain, text_field, hostname_field,
  extensions_field, sspi_field, put-Puts, put_int32-Puts, put_bytes_fixed-Puts, put_text-Puts,
  put_hostname-Puts, put_extensions-Puts, put_sspi-Puts,
}

-- The fields of a login, behind its length.
abbrev pub fields : Login7Payload → List Field
fields p =
    plain (to_le 4 p.tds_version)
    ∷ plain (to_le 4 p.packet_size)
    ∷ plain (to_le 4 p.client_prog_ver)
    ∷ plain (to_le 4 p.client_pid)
    ∷ plain (to_le 4 p.connection_id)
    ∷ plain (to_le 1 (build_option_flags1 p))
    ∷ plain (to_le 1 (build_option_flags2 p))
    ∷ plain (to_le 1 (build_type_flags p))
    ∷ plain (to_le 1 build_option_flags3)
    ∷ plain (to_le 4 (unsigned 4 p.client_time_zone))
    ∷ plain (to_le 4 p.client_lcid)
    ∷ hostname_field (text_of p.hostname)
    ∷ text_field (λ bytes. bytes) (text_of p.user_name)
    ∷ text_field scramble_password (text_of p.password)
    ∷ text_field (λ bytes. bytes) (text_of p.app_name)
    ∷ text_field (λ bytes. bytes) (text_of p.server_name)
    ∷ extensions_field (build_feature_ext p)
    ∷ text_field (λ bytes. bytes) (text_of p.library_name)
    ∷ text_field (λ bytes. bytes) (text_of p.language)
    ∷ text_field (λ bytes. bytes) (text_of p.database)
    ∷ plain (client_id_bytes p.client_id)
    ∷ sspi_field p.sspi
    ∷ text_field (λ bytes. bytes) (text_of p.attach_db_file)
    ∷ text_field (λ bytes. bytes) (text_of p.change_password)
    ∷ plain (to_le 4 (sspi_long p.sspi))
    ∷ []

-- The length of the whole, the head of 94 bytes, and the contents.
abbrev pub login_layout : Login7Payload → Buffer
login_layout p =
    to_le 4 (94 + length (contents 94 (fields p)))
    ++ (heads 94 (fields p) ++ contents 94 (fields p))

-- Every number fits its width.
pub record IsInRange (p : Login7Payload) : Type 0 where
  pub tds_version : p.tds_version < 256 ^ 4
  pub packet_size : p.packet_size < 256 ^ 4
  pub client_prog_ver : p.client_prog_ver < 256 ^ 4
  pub client_pid : p.client_pid < 256 ^ 4
  pub connection_id : p.connection_id < 256 ^ 4
  pub client_time_zone : fits_signed 4 p.client_time_zone ≡ true
  pub client_lcid : p.client_lcid < 256 ^ 4
  pub sspi : sspi_long p.sspi < 256 ^ 4

flags1_fit : (p : Login7Payload) → build_option_flags1 p < 256 ^ 1
unfolding build_option_flags1
flags1_fit p = elim p.init_db_fatal as (λ b. bit_or 0xB0 (if b then 0x40 else 0x00) < 256 ^ 1) [
  | true ↦ omega arith
  | false ↦ omega arith
]

flags2_fit : (p : Login7Payload) → build_option_flags2 p < 256 ^ 1
unfolding build_option_flags2
flags2_fit p = elim p.sspi as (λ o. elim o [ none ↦ 0x00 | some bytes ↦ 0x80 ] < 256 ^ 1) [
  | none ↦ omega arith
  | some bytes ↦ omega arith
]

type_flags_fit : (p : Login7Payload) → build_type_flags p < 256 ^ 1
unfolding build_type_flags
type_flags_fit p = elim p.read_only_intent as (λ b. (if b then 0x20 else 0x00) < 256 ^ 1) [
  | true ↦ omega arith
  | false ↦ omega arith
]

flags3_fit : build_option_flags3 < 256 ^ 1
unfolding build_option_flags3
flags3_fit = omega arith

steps-Each : (p : Login7Payload) → IsInRange p → Each (steps p) (plain (to_le 4 0) ∷ fields p)
unfolding scramble_password
steps-Each p h = (
  put-Puts 4 0 (omega arith),
  (
    put-Puts 4 p.tds_version h.tds_version,
    (
      put-Puts 4 p.packet_size h.packet_size,
      (
        put-Puts 4 p.client_prog_ver h.client_prog_ver,
        (
          put-Puts 4 p.client_pid h.client_pid,
          (
            put-Puts 4 p.connection_id h.connection_id,
            (
              put-Puts 1 (build_option_flags1 p) (flags1_fit p),
              (
                put-Puts 1 (build_option_flags2 p) (flags2_fit p),
                (
                  put-Puts 1 (build_type_flags p) (type_flags_fit p),
                  (
                    put-Puts 1 build_option_flags3 flags3_fit,
                    (
                      put_int32-Puts p.client_time_zone h.client_time_zone,
                      (
                        put-Puts 4 p.client_lcid h.client_lcid,
                        (
                          put_hostname-Puts (text_of p.hostname),
                          (
                            put_text-Puts (λ bytes. bytes) (text_of p.user_name) refl,
                            (
                              put_text-Puts scramble_password (text_of p.password) refl,
                              (
                                put_text-Puts (λ bytes. bytes) (text_of p.app_name) refl,
                                (
                                  put_text-Puts (λ bytes. bytes) (text_of p.server_name) refl,
                                  (
                                    put_extensions-Puts (build_feature_ext p),
                                    (
                                      put_text-Puts (λ bytes. bytes) (text_of p.library_name) refl,
                                      (
                                        put_text-Puts (λ bytes. bytes) (text_of p.language) refl,
                                        (
                                          put_text-Puts (λ bytes. bytes) (text_of p.database) refl,
                                          (
                                            put_bytes_fixed-Puts (client_id_bytes p.client_id),
                                            (
                                              put_sspi-Puts p.sspi,
                                              (
                                                put_text-Puts (λ bytes. bytes)
                                                    (text_of p.attach_db_file) refl,
                                                (
                                                  put_text-Puts (λ bytes. bytes)
                                                      (text_of p.change_password) refl,
                                                  (put-Puts 4 (sspi_long p.sspi) h.sspi, tt),
                                                ),
                                              ),
                                            ),
                                          ),
                                        ),
                                      ),
                                    ),
                                  ),
                                ),
                              ),
                            ),
                          ),
                        ),
                      ),
                    ),
                  ),
                ),
              ),
            ),
          ),
        ),
      ),
    ),
  ),
)

length-padded : (n : ℕ) (bytes : Buffer) → length (take n (bytes ++ replicate n 0)) ≡ n
length-padded n bytes = omega (
  arith,
  length-take n (bytes ++ replicate n 0),
  length-append bytes (replicate n 0),
  length-replicate {A = ℕ} n 0,
)

length-client_id : (o : Option Buffer) → length (client_id_bytes o) ≡ 6
length-client_id none = refl
length-client_id (some bytes) = length-padded 6 bytes

pub length-heads : (p : Login7Payload) → length (heads 94 (fields p)) ≡ 90
unfolding to_le
length-heads p =
    omega (arith, length-client_id p.client_id, length-append (client_id_bytes p.client_id))

overwritten : (n : ℕ) (rest : Buffer) → splice (to_le 4 0 ++ rest) 0 (to_le 4 n) ≡ to_le 4 n ++ rest
unfolding to_le
overwritten n rest = refl

sized :
    (n m : ℕ) (rest : Buffer)
    → m ≡ n
    → n < 256 ^ 4
    → (if ltb m (256 ^ 4) then some (splice (to_le 4 0 ++ rest) 0 (to_le 4 m)) else none)
      ≡ some (to_le 4 n ++ rest)
sized n m rest x k =
    ap (λ i. if ltb i (256 ^ 4) then some (splice (to_le 4 0 ++ rest) 0 (to_le 4 i)) else none) x
    ∙ ap (λ b. if b then some (splice (to_le 4 0 ++ rest) 0 (to_le 4 n)) else none)
        (ltb-true n (256 ^ 4) k)
    ∙ ap some (overwritten n rest)

with_total_length_lem :
    (h c : Buffer)
    → length h ≡ 90
    → 94 + length c < 256 ^ 4
    → with_total_length ((to_le 4 0 ++ h) ++ c) ≡ some (to_le 4 (94 + length c) ++ (h ++ c))
with_total_length_lem h c e k =
    ap with_total_length (append_assoc (to_le 4 0) h c)
    ∙ sized (94 + length c) (length (to_le 4 0 ++ (h ++ c))) (h ++ c) total k
  where
    total : length (to_le 4 0 ++ (h ++ c)) ≡ 94 + length c
    total =
        omega (arith, e, length-append (to_le 4 0) (h ++ c), length-append h c, length-to_le 4 0)

-- Where the numbers of a login fit their widths, its offsets two bytes and its length four, toBuffer makes
-- the whole length, a head of 90 bytes and the contents: the numbers, the flags, and for each text its
-- offset from the start and its length, with the password scrambled, the extensions behind their own
-- offset, the client id in 6 bytes, and the SSPI data, which do not move the offsets behind them; the
-- length of a missing host name is written as its offset.
pub to_buffer_lem :
    (p : Login7Payload)
    → IsInRange p
    → 94 + total_advance (fields p) < 65536
    → 94 + length (contents 94 (fields p)) < 256 ^ 4
    → to_buffer p ≡ some (login_layout p)
unfolding to_buffer
to_buffer_lem p h o k =
    ap finished (
      run-Each (steps p) (plain (to_le 4 0) ∷ fields p)
        (record { fixed_data = []; data_offset = 94; buffers = [] }) (steps-Each p h) (omega arith))
    ∙ with_total_length_lem (heads 94 (fields p)) (contents 94 (fields p)) (length-heads p) k
