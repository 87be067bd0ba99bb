-- ===== src/Tests/Logins.antt =====
-- A login of lib/login7-payload.js.
use tedious.Prelude.{◌+◌, ◌^◌, ◌<◌, ◌≡◌, refl, true, false, none, some, [], ◌∷◌, length, arith}
use tedious.Prelude.Int.{pos}
use tedious.Buffer.{Buffer, to_le, ucs2_bytes}
use tedious.LoginPayload.{Login7Payload, to_buffer, build_feature_ext, scramble_password}
use tedious.LoginPayload.Layout.{contents, total_advance}
use tedious.LoginPayload.Points.{PointsToAll, to_buffer-PointsToAll}
use tedious.LoginPayload.Sent.{IsInRange, fields, login_layout, to_buffer_lem}

-- 'sa' with the password 'pw' from the host 'h', without SSPI data.
abbrev small : Login7Payload
small = record {
  tds_version = 0x74000004;
  packet_size = 4096;
  client_prog_ver = 1;
  client_pid = 2;
  connection_id = 0;
  client_time_zone = pos 60;
  client_lcid = 0x409;
  read_only_intent = false;
  init_db_fatal = true;
  fed_auth = none;
  hostname = some (0x68 ∷ []);
  user_name = some (0x73 ∷ 0x61 ∷ []);
  password = some (0x70 ∷ 0x77 ∷ []);
  app_name = none;
  server_name = none;
  library_name = none;
  language = none;
  database = none;
  client_id = none;
  sspi = none;
  attach_db_file = none;
  change_password = none;
}

small-IsInRange : IsInRange small
small-IsInRange = record {
  tds_version = omega arith;
  packet_size = omega arith;
  client_prog_ver = omega arith;
  client_pid = omega arith;
  connection_id = omega arith;
  client_time_zone = refl;
  client_lcid = omega arith;
  sspi = omega arith;
}

small_offsets : 94 + total_advance (fields small) < 65536
unfolding build_feature_ext ucs2_bytes to_le
small_offsets = omega arith

small_enough : 94 + length (contents 94 (fields small)) < 256 ^ 4
unfolding build_feature_ext ucs2_bytes to_le scramble_password
small_enough = omega arith

to_buffer_lem_example : to_buffer small ≡ some (login_layout small)
to_buffer_lem_example = to_buffer_lem small small-IsInRange small_offsets small_enough

to_buffer-PointsToAll_example :
    (buf : Buffer) × (to_buffer small ≡ some buf) × PointsToAll small buf
to_buffer-PointsToAll_example =
    to_buffer-PointsToAll small small-IsInRange small_offsets small_enough
