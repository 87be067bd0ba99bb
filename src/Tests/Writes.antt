-- ===== src/Tests/Writes.antt =====
-- Writes of lib/tracking-buffer/writable-tracking-buffer.js on small inputs.
use tedious.Prelude.{◌^◌, ◌<◌, ◌≡◌, true, none, some, [], ◌∷◌, ◌++◌, length, arith}
use tedious.Buffer.{to_le}
use tedious.Read.{result, read_b_var_char, read_us_var_char}
use tedious.TrackingBuffer.{
  Tracker, ucs2_encoding, new_tracker, make_room_for, put_bytes, data_of, chars, bytes_of,
  write_plp_body, write_b_varchar, write_us_varchar, or_own, unknown_plp_len, encode,
}
use tedious.TrackingBuffer.Growth.{
  contents, IsValid, HasRoom, Appended, new_tracker-IsValid, make_room_for-HasRoom,
  put_bytes-Appended,
}
use tedious.TrackingBuffer.Strings.{
  plp_chunks, write_plp_body_lem, read_us_var_char-write_us_varchar,
  read_b_var_char-write_b_varchar,
}

-- Four bytes, to which more than four are written.
abbrev small : Tracker
small = new_tracker 4 ucs2_encoding true

small-IsValid : IsValid small
small-IsValid = new_tracker-IsValid 4 ucs2_encoding true

make_room_for-HasRoom_example : HasRoom 9 small (make_room_for 9 small)
make_room_for-HasRoom_example = make_room_for-HasRoom 9 small small-IsValid

put_bytes-Appended_example :
    Appended (1 ∷ 2 ∷ 3 ∷ 4 ∷ 5 ∷ []) small (put_bytes (1 ∷ 2 ∷ 3 ∷ 4 ∷ 5 ∷ []) small)
put_bytes-Appended_example = put_bytes-Appended (1 ∷ 2 ∷ 3 ∷ 4 ∷ 5 ∷ []) small small-IsValid

plp_fits : length (bytes_of (or_own none small) (chars (65 ∷ []))) < 256 ^ 4
unfolding encode new_tracker
plp_fits = omega arith

write_plp_body_lem_example :
    (u : Tracker) × (write_plp_body (chars (65 ∷ [])) none small ≡ some u)
    × Appended
        (unknown_plp_len
          ++ (plp_chunks (bytes_of (or_own none small) (chars (65 ∷ []))) ++ to_le 4 0))
        small
        u
write_plp_body_lem_example = write_plp_body_lem (chars (65 ∷ [])) none small plp_fits small-IsValid

read_us_var_char-write_us_varchar_example :
    (u : Tracker) × (write_us_varchar (65 ∷ 0x20ac ∷ []) (some ucs2_encoding) small ≡ some u)
    × (read_us_var_char (data_of u).1 (length (contents small))
        ≡ result (65 ∷ 0x20ac ∷ []) (length (data_of u).1))
read_us_var_char-write_us_varchar_example =
    read_us_var_char-write_us_varchar (65 ∷ 0x20ac ∷ []) small (omega arith) small-IsValid

read_b_var_char-write_b_varchar_example :
    (u : Tracker) × (write_b_varchar (65 ∷ 0x20ac ∷ []) (some ucs2_encoding) small ≡ some u)
    × (read_b_var_char (data_of u).1 (length (contents small))
        ≡ result (65 ∷ 0x20ac ∷ []) (length (data_of u).1))
read_b_var_char-write_b_varchar_example =
    read_b_var_char-write_b_varchar (65 ∷ 0x20ac ∷ []) small (omega arith) small-IsValid
