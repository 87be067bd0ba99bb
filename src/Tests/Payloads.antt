-- ===== src/Tests/Payloads.antt =====
-- Payloads of lib/transaction.js, lib/sqlbatch-payload.js and lib/prelogin-payload.js on small inputs.
use tedious.Prelude.{◌≡◌, refl, true, none, some, [], ◌∷◌, arith, if◌then◌else◌}
use tedious.Buffer.{Buffer, JsString, ucs2_bytes, str_lt}
use tedious.Payload.{
  Transaction, begin_payload, commit_payload, rollback_payload, save_payload, sql_batch_payload,
}
use tedious.Prelogin.{PreloginOptions, prelogin, extract_loop, nothing_read}
use tedious.Prelogin.Built.{Fits}
use tedious.Prelogin.RoundTrip.{read_back, prelogin_lem, Ends, extract_loop-Ends}
use tedious.Payload.Layout.{all_headers_layout}
use tedious.Payload.Sent.{
  SendsAll, transaction_payloads, transaction_payloads_refused, sql_batch_payload_lem,
}

abbrev no_descriptor : Buffer
no_descriptor = 0 ∷ 0 ∷ 0 ∷ 0 ∷ 0 ∷ 0 ∷ 0 ∷ 0 ∷ []

-- 'tx', of the isolation level READ_COMMITTED.
abbrev named : Transaction
named = record { name = 0x74 ∷ 0x78 ∷ []; isolation_level = 2; outstanding_request_count = 1 }

abbrev sixteen_of : JsString → JsString
sixteen_of rest =
    97 ∷ 97 ∷ 97 ∷ 97 ∷ 97 ∷ 97 ∷ 97 ∷ 97 ∷ 97 ∷ 97 ∷ 97 ∷ 97 ∷ 97 ∷ 97 ∷ 97 ∷ 97 ∷ rest

abbrev long_name : JsString
long_name = sixteen_of (
    sixteen_of
      (sixteen_of (sixteen_of (sixteen_of (sixteen_of (sixteen_of (sixteen_of (97 ∷ []))))))))

abbrev too_long : Transaction
too_long = record { name = long_name; isolation_level = 2; outstanding_request_count = 1 }

transaction_payloads_example : SendsAll named no_descriptor
transaction_payloads_example =
    transaction_payloads named no_descriptor refl (omega arith) (omega arith) (omega arith)

transaction_payloads_refused_example :
    (begin_payload too_long no_descriptor ≡ none)
    × (commit_payload too_long no_descriptor ≡ none)
    × (rollback_payload too_long no_descriptor ≡ none)
    × (save_payload too_long no_descriptor ≡ none)
transaction_payloads_refused_example =
    transaction_payloads_refused too_long no_descriptor refl (omega arith) (omega arith)

-- 'go', to a server of '7_4'.
sql_batch_payload_lem_example :
    sql_batch_payload (0x67 ∷ 0x6f ∷ []) no_descriptor (55 ∷ 95 ∷ 52 ∷ [])
    ≡ some (
        if str_lt (55 ∷ 95 ∷ 52 ∷ []) (0x37 ∷ 0x5f ∷ 0x32 ∷ [])
        then ucs2_bytes (0x67 ∷ 0x6f ∷ []) ∷ []
        else all_headers_layout no_descriptor 1 ∷ ucs2_bytes (0x67 ∷ 0x6f ∷ []) ∷ [])
sql_batch_payload_lem_example =
    sql_batch_payload_lem (0x67 ∷ 0x6f ∷ []) no_descriptor (55 ∷ 95 ∷ 52 ∷ []) refl

abbrev driver : PreloginOptions
driver = record {
  encrypt = true;
  version = record { major = 16; minor = 4; build = 1023; subbuild = 0 };
}

driver-Fits : Fits driver.version
driver-Fits = record {
  major = omega arith;
  minor = omega arith;
  build = omega arith;
  subbuild = omega arith;
}

prelogin_lem_example : prelogin driver ≡ some (read_back driver.version true)
prelogin_lem_example = prelogin_lem driver driver-Fits

-- The terminator alone.
extract_loop-Ends_example : Ends (extract_loop 2 (0xFF ∷ []) 0 nothing_read)
extract_loop-Ends_example = extract_loop-Ends 1 (0xFF ∷ []) 0 nothing_read (omega arith)
