-- ===== src/Payload/Sent.antt =====
-- The bytes that the payloads of lib/transaction.js and lib/sqlbatch-payload.js send.
use tedious.Prelude.{
  ◌*◌, ◌^◌, ◌≤◌, ◌<◌, ◌≡◌, refl, ap, false, not, Option, none, some, [], ◌∷◌, ◌++◌, length, arith,
  Bool, true, if◌then◌else◌,
}
use tedious.Buffer.{Buffer, JsString, to_le, ucs2_bytes, str_lt}
use tedious.TrackingBuffer.{
  Tracker, Write, ◌>>◌, write_uint8, write_ushort, ucs2_encoding, ascii_encoding, encode,
  new_tracker, write_string,
}
use tedious.TrackingBuffer.Emits.{
  Emits, >>-Emits, write_refuses, write_uint8-Emits, write_ushort-Emits, write_string-Emits,
}
use tedious.Payload.{
  Transaction, yielded, write_all_headers, write_name, with_headers, begin_payload, commit_payload,
  rollback_payload, save_payload, sql_batch_payload,
}
use tedious.Payload.Layout.{all_headers_layout, yielded-headers, yielded-behind, yielded-refused}

-- A name behind its length in bytes.
abbrev pub name_layout : JsString → Buffer
name_layout name = to_le 1 (length name * 2) ++ ucs2_bytes name

write_name-Emits :
    (name : JsString) → length name < 128 → Emits (write_name name) (λ _. name_layout name)
write_name-Emits name h =
    >>-Emits _ _ (write_uint8-Emits (length name * 2) (omega arith))
      (unfold encode in write_string-Emits name ucs2_encoding)

-- The four payloads of a transaction.
abbrev pub SendsAll : Transaction → Buffer → Type 0
SendsAll tx txn_descriptor =
    (begin_payload tx txn_descriptor
      ≡ some (
          all_headers_layout txn_descriptor tx.outstanding_request_count
          ++ (to_le 2 5 ++ to_le 1 tx.isolation_level ++ name_layout tx.name)))
    × (commit_payload tx txn_descriptor
        ≡ some (
            all_headers_layout txn_descriptor tx.outstanding_request_count
            ++ (to_le 2 7 ++ name_layout tx.name ++ to_le 1 0)))
    × (rollback_payload tx txn_descriptor
        ≡ some (
            all_headers_layout txn_descriptor tx.outstanding_request_count
            ++ (to_le 2 8 ++ name_layout tx.name ++ to_le 1 0)))
    × (save_payload tx txn_descriptor
        ≡ some (
            all_headers_layout txn_descriptor tx.outstanding_request_count
            ++ (to_le 2 9 ++ name_layout tx.name)))

-- For a descriptor of 8 bytes, a name of fewer than 128 code units, an isolation level of a byte and a
-- request count of 32 bits, the payloads of a transaction are sent: the headers with their total length,
-- the operation, for a begin the isolation level, the name behind its length in bytes, and for a commit
-- and a rollback the flags 0.
pub transaction_payloads :
    (tx : Transaction) (txn_descriptor : Buffer)
    → length txn_descriptor ≡ 8
    → length tx.name < 128
    → tx.isolation_level < 256
    → tx.outstanding_request_count < 256 ^ 4
    → SendsAll tx txn_descriptor
unfolding begin_payload commit_payload rollback_payload save_payload
transaction_payloads tx txn_descriptor eight short level count = (
  yielded-behind txn_descriptor tx.outstanding_request_count eight count 100 ucs2_encoding _ _ (
      >>-Emits _ _
        (>>-Emits _ _ (write_ushort-Emits 5 (omega arith))
          (write_uint8-Emits tx.isolation_level level))
        (write_name-Emits tx.name short)),
  yielded-behind txn_descriptor tx.outstanding_request_count eight count 100 ascii_encoding _ _ (
      >>-Emits _ _
        (>>-Emits _ _ (write_ushort-Emits 7 (omega arith)) (write_name-Emits tx.name short))
        (write_uint8-Emits 0 (omega arith))),
  yielded-behind txn_descriptor tx.outstanding_request_count eight count 100 ascii_encoding _ _ (
      >>-Emits _ _
        (>>-Emits _ _ (write_ushort-Emits 8 (omega arith)) (write_name-Emits tx.name short))
        (write_uint8-Emits 0 (omega arith))),
  yielded-behind txn_descriptor tx.outstanding_request_count eight count 100 ascii_encoding _ _
      (>>-Emits _ _ (write_ushort-Emits 9 (omega arith)) (write_name-Emits tx.name short)),
)

refused-first : (f g : Write) → ((u : Tracker) → f u ≡ none) → (u : Tracker) → (f >> g) u ≡ none
unfolding ◌>>◌
refused-first f g h u = rw (h u, ◌>>◌) refl

refused-second : (f g : Write) → ((u : Tracker) → g u ≡ none) → (u : Tracker) → (f >> g) u ≡ none
unfolding ◌>>◌
refused-second f g h u = cases (f u)
  where
    cases : (o : Option Tracker) → (elim o [ none ↦ none | some w ↦ g w ]) ≡ none
    cases none = refl
    cases (some w) = h w

long-name : (name : JsString) → 128 ≤ length name → (u : Tracker) → write_name name u ≡ none
long-name name h =
    refused-first (write_uint8 (length name * 2)) (write_string name (some ucs2_encoding))
      λ u. (write_refuses (length name * 2) u).0 (omega arith)

-- For a descriptor of 8 bytes and a request count of 32 bits, none of the payloads of a transaction whose
-- name has 128 code units or more is sent: the length of the name does not fit its byte, and the
-- write of it throws.
pub transaction_payloads_refused :
    (tx : Transaction) (txn_descriptor : Buffer)
    → length txn_descriptor ≡ 8
    → 128 ≤ length tx.name
    → tx.outstanding_request_count < 256 ^ 4
    → (begin_payload tx txn_descriptor ≡ none)
      × (commit_payload tx txn_descriptor ≡ none)
      × (rollback_payload tx txn_descriptor ≡ none)
      × (save_payload tx txn_descriptor ≡ none)
unfolding begin_payload commit_payload rollback_payload save_payload
transaction_payloads_refused tx txn_descriptor eight long count = (
  yielded-refused txn_descriptor tx.outstanding_request_count eight count 100 ucs2_encoding _
      (refused-second (write_ushort 5 >> write_uint8 tx.isolation_level) (write_name tx.name) name),
  yielded-refused txn_descriptor tx.outstanding_request_count eight count 100 ascii_encoding _ (
      refused-first (write_ushort 7 >> write_name tx.name) (write_uint8 0)
        (refused-second (write_ushort 7) (write_name tx.name) name)),
  yielded-refused txn_descriptor tx.outstanding_request_count eight count 100 ascii_encoding _ (
      refused-first (write_ushort 8 >> write_name tx.name) (write_uint8 0)
        (refused-second (write_ushort 8) (write_name tx.name) name)),
  yielded-refused txn_descriptor tx.outstanding_request_count eight count 100 ascii_encoding _
      (refused-second (write_ushort 9) (write_name tx.name) name),
)
  where
    name : (u : Tracker) → write_name tx.name u ≡ none
    name = long-name tx.name long

-- For a version of 7.2 or later and a descriptor of 8 bytes, the payload of an SQL batch is the headers,
-- with one outstanding request, and behind them the text in UCS-2, as two buffers; for an earlier
-- version it is the text alone.
pub sql_batch_payload_lem :
    (sql_text : JsString) (txn_descriptor : Buffer) (tds_version : JsString)
    → length txn_descriptor ≡ 8
    → sql_batch_payload sql_text txn_descriptor tds_version
      ≡ some (
          if str_lt tds_version (0x37 ∷ 0x5f ∷ 0x32 ∷ [])
          then ucs2_bytes sql_text ∷ []
          else all_headers_layout txn_descriptor 1 ∷ ucs2_bytes sql_text ∷ [])
unfolding sql_batch_payload
sql_batch_payload_lem sql_text txn_descriptor tds_version eight =
    cases (str_lt tds_version (0x37 ∷ 0x5f ∷ 0x32 ∷ []))
  where
    headers : Option Buffer
    headers = yielded (write_all_headers txn_descriptor 1 (new_tracker 18 ucs2_encoding false))

    cases :
        (b : Bool)
        → (if not b
            then with_headers headers (ucs2_bytes sql_text)
            else some (ucs2_bytes sql_text ∷ []))
          ≡ some (
              if b
              then ucs2_bytes sql_text ∷ []
              else all_headers_layout txn_descriptor 1 ∷ ucs2_bytes sql_text ∷ [])
    cases true = refl
    cases false =
        ap (λ o. with_headers o (ucs2_bytes sql_text))
          (yielded-headers txn_descriptor 1 eight (omega arith) 18 ucs2_encoding)
