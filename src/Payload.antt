-- ===== src/Payload.antt =====
-- The payloads of requests: lib/all-headers.js, lib/transaction.js and lib/sqlbatch-payload.js.
pub mod Layout
pub mod Sent
use tedious.Prelude.{
  ℕ, ◌+◌, ◌*◌, ◌^◌, Bool, true, false, not, ◌&&◌, Option, none, some, List, [], ◌∷◌, ltb, leb,
  length, if◌then◌else◌,
}
use tedious.Buffer.{Buffer, JsString, to_le, ucs2_bytes, str_lt}
use tedious.TrackingBuffer.{
  Tracker, Write, ◌>>◌, new_tracker, data_of, splice, ucs2_encoding, ascii_encoding, write_uint8,
  write_uint16_le, write_ushort, write_uint32_le, write_buffer, write_string,
}

-- `const data = buffer.data; data.writeUInt32LE(data.length, 0);`: the composite buffer is written in place, and Node
-- refuses a length that does not fit or a buffer of fewer than 4 bytes.
unfoldable pub put_length : Tracker → Buffer → Option Tracker
unfolding to_le
put_length c bytes =
    if ltb (length bytes) (256 ^ 4) && leb 4 (length bytes)
    then some (record c { composite_buffer = splice bytes 0 (to_le 4 (length bytes)) })
    else none

unfoldable pub put_total_length : Write
unfolding data_of put_length
put_total_length t = put_length (data_of t).0 (data_of t).1

-- writeToTrackingBuffer(buffer, txnDescriptor, outstandingRequestCount)
unfoldable pub write_all_headers : Buffer → ℕ → Write
unfolding write_uint32_le write_uint16_le write_buffer put_total_length ◌>>◌
write_all_headers txn_descriptor outstanding_request_count =
    write_uint32_le 0
    >> write_uint32_le 18
    >> write_uint16_le 2
    >> write_buffer txn_descriptor
    >> write_uint32_le outstanding_request_count
    >> put_total_length

pub record Transaction : Type 0 where
  pub name : JsString
  pub isolation_level : ℕ
  pub outstanding_request_count : ℕ

-- `yield buffer.data` of what was written.
abbrev pub yielded : Option Tracker → Option Buffer
yielded none = none
yielded (some u) = some ((data_of u).1)

abbrev pub write_name : JsString → Write
write_name name = write_uint8 (length name * 2) >> write_string name (some ucs2_encoding)

module _ (tx : Transaction) (txn_descriptor : Buffer) where
  unfoldable pub begin_payload : Option Buffer
  unfolding write_all_headers write_ushort write_uint8 write_string new_tracker data_of ◌>>◌
  begin_payload = yielded (
      (write_all_headers txn_descriptor tx.outstanding_request_count
          >> (write_ushort 0x05 >> write_uint8 tx.isolation_level >> write_name tx.name))
        (new_tracker 100 ucs2_encoding false))

  unfoldable pub commit_payload : Option Buffer
  unfolding write_all_headers write_ushort write_uint8 write_string new_tracker data_of ◌>>◌
  commit_payload = yielded (
      (write_all_headers txn_descriptor tx.outstanding_request_count
          >> (write_ushort 0x07 >> write_name tx.name >> write_uint8 0))
        (new_tracker 100 ascii_encoding false))

  unfoldable pub rollback_payload : Option Buffer
  unfolding write_all_headers write_ushort write_uint8 write_string new_tracker data_of ◌>>◌
  rollback_payload = yielded (
      (write_all_headers txn_descriptor tx.outstanding_request_count
          >> (write_ushort 0x08 >> write_name tx.name >> write_uint8 0))
        (new_tracker 100 ascii_encoding false))

  unfoldable pub save_payload : Option Buffer
  unfolding write_all_headers write_ushort write_uint8 write_string new_tracker data_of ◌>>◌
  save_payload = yielded (
      (write_all_headers txn_descriptor tx.outstanding_request_count
          >> (write_ushort 0x09 >> write_name tx.name))
        (new_tracker 100 ascii_encoding false))

-- SqlBatchPayload: the buffers that are yielded.
abbrev pub with_headers : Option Buffer → Buffer → Option (List Buffer)
with_headers none text = none
with_headers (some headers) text = some (headers ∷ text ∷ [])

-- `this.options.tdsVersion >= '7_2'`
unfoldable pub sql_batch_payload : JsString → Buffer → JsString → Option (List Buffer)
unfolding str_lt ucs2_bytes write_all_headers new_tracker data_of
sql_batch_payload sql_text txn_descriptor tds_version =
    if not (str_lt tds_version (0x37 ∷ 0x5f ∷ 0x32 ∷ []))
    then with_headers
        (yielded (write_all_headers txn_descriptor 1 (new_tracker 18 ucs2_encoding false)))
        (ucs2_bytes sql_text)
    else some (ucs2_bytes sql_text ∷ [])
