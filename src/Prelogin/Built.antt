-- ===== src/Prelogin/Built.antt =====
-- The bytes that createOptions of lib/prelogin-payload.js builds.
use tedious.Prelude.{
  ℕ, ◌<◌, ◌≡◌, refl, ap, ◌∙◌, Bool, true, false, Option, some, List, [], ◌∷◌, ◌++◌, arith,
  if◌then◌else◌,
}
use tedious.Buffer.{Buffer, to_le, to_be}
use tedious.TrackingBuffer.{Write, new_tracker, ucs2_encoding}
use tedious.TrackingBuffer.Growth.{data_of_lem, new_tracker-IsValid, contents-new_tracker}
use tedious.TrackingBuffer.Emits.{
  Emits, >>-Emits, write_uint8-Emits, write_uint16_be-Emits, write_uint32_be-Emits,
}
use tedious.Payload.{yielded}
use tedious.Prelogin.{
  Version, PreloginOptions, PreloginOption, buffered, and_option, create_version_option,
  create_encryption_option, create_byte_option, create_thread_id_option, all_options,
}

buffered-Emits : (f : Write) (bytes : Buffer) → Emits f (λ _. bytes) → buffered f ≡ some bytes
buffered-Emits f bytes emits =
    let (u, x, a) =
      emits.at (new_tracker 20 ucs2_encoding false) (new_tracker-IsValid 20 ucs2_encoding false) in
    ap yielded x
    ∙ ap some (
        (data_of_lem u).0
        ∙ a.written
        ∙ ap (λ c. c ++ bytes) (contents-new_tracker 20 ucs2_encoding false))

-- Each number within its width.
pub record Fits (v : Version) : Type 0 where
  pub major : v.major < 256
  pub minor : v.minor < 256
  pub build : v.build < 65536
  pub subbuild : v.subbuild < 65536

abbrev pub version_bytes : Version → Buffer
version_bytes v = to_le 1 v.major ++ to_le 1 v.minor ++ to_be 2 v.build ++ to_be 2 v.subbuild

version_built : (v : Version) → Fits v → create_version_option v ≡ some (version_bytes v)
unfolding create_version_option
version_built v h = buffered-Emits _ _ (
    >>-Emits _ _
      (>>-Emits _ _
        (>>-Emits _ _ (write_uint8-Emits v.major h.major) (write_uint8-Emits v.minor h.minor))
        (write_uint16_be-Emits v.build h.build))
      (write_uint16_be-Emits v.subbuild h.subbuild))

encryption_built : (b : Bool) → create_encryption_option b ≡ some (to_le 1 (if b then 1 else 2))
unfolding create_encryption_option
encryption_built true = buffered-Emits _ _ (write_uint8-Emits 1 (omega arith))
encryption_built false = buffered-Emits _ _ (write_uint8-Emits 2 (omega arith))

byte_built : (n : ℕ) → n < 256 → create_byte_option n ≡ some (to_le 1 n)
unfolding create_byte_option
byte_built n h = buffered-Emits _ _ (write_uint8-Emits n h)

thread_id_built : create_thread_id_option ≡ some (to_be 4 0)
unfolding create_thread_id_option
thread_id_built = buffered-Emits _ _ (write_uint32_be-Emits 0 (omega arith))

abbrev option_of : ℕ → Buffer → PreloginOption
option_of token bytes = record { token = token; bytes = bytes }

-- The six options with their bytes.
abbrev pub options_of : PreloginOptions → List PreloginOption
options_of o =
    option_of 0x00 (version_bytes o.version)
    ∷ option_of 0x01 (to_le 1 (if o.encrypt then 1 else 2))
    ∷ option_of 0x02 (to_le 1 0)
    ∷ option_of 0x03 (to_be 4 0)
    ∷ option_of 0x04 (to_le 1 0)
    ∷ option_of 0x06 (to_le 1 1)
    ∷ []

and_built :
    (token : ℕ) (x : Option Buffer) (y : Option (List PreloginOption)) {bytes : Buffer}
    {os : List PreloginOption}
    → x ≡ some bytes
    → y ≡ some os
    → and_option token x y ≡ some (option_of token bytes ∷ os)
and_built token x y e e' = rw (e, e') refl

pub all_options_lem : (o : PreloginOptions) → Fits o.version → all_options o ≡ some (options_of o)
unfolding all_options
all_options_lem o h = and_built 0x00 _ _ (version_built o.version h) (
    and_built 0x01 _ _ (encryption_built o.encrypt) (
      and_built 0x02 _ _ (byte_built 0 (omega arith)) (
        and_built 0x03 _ _ thread_id_built (
          and_built 0x04 _ _ (byte_built 0 (omega arith))
            (and_built 0x06 _ _ (byte_built 1 (omega arith)) refl)))))
