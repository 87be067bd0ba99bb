-- ===== src/Handler/Session.antt =====
-- lib/token/handler.js: the methods that several handlers share, and InitialSqlTokenHandler.
use tedious.Prelude.{Bool, true, false, Option, none, some, List, [], ◌∷◌, ◌++◌}
use tedious.Prelude.Int.{ℤ}
use tedious.Buffer.{Buffer}
use tedious.Collation.{Collation}
use tedious.Token.{
  Token, EnvChangeData, col_metadata, done, done_in_proc, done_proc, info_message, error_message,
  login_ack, order, return_status, feature_ext_ack, env_change, row, nbc_row, return_value, sspi,
  fed_auth_info, database, language, charset, database_mirroring_partner, packet_size,
  begin_transaction, commit_transaction, rollback_transaction, reset_connection, collation_change,
  routing,
}
use tedious.Handler.{
  Connection, Handled, handled, unexpected_token, emit, info_event, error_event, database_change,
  language_change, charset_change, rollback_event, reset_event, unexpected_columns,
  unexpected_order, unexpected_row, closed,
}

-- onSqlCollationChange
abbrev pub with_database_collation : Option Collation → Connection → Connection
with_database_collation collation c = record {
  config = c.config;
  database_collation = collation;
  packet_size = c.packet_size;
  transaction_descriptors = c.transaction_descriptors;
  in_transaction = c.in_transaction;
  proc_return_status_value = c.proc_return_status_value;
  login_error = c.login_error;
  cur_transient_retry_count = c.cur_transient_retry_count;
  ntlmpacket = c.ntlmpacket;
  events = c.events;
}

-- onPacketSizeChange
abbrev pub with_packet_size : Option ℤ → Connection → Connection
with_packet_size size c = record {
  config = c.config;
  database_collation = c.database_collation;
  packet_size = size;
  transaction_descriptors = c.transaction_descriptors;
  in_transaction = c.in_transaction;
  proc_return_status_value = c.proc_return_status_value;
  login_error = c.login_error;
  cur_transient_retry_count = c.cur_transient_retry_count;
  ntlmpacket = c.ntlmpacket;
  events = c.events;
}

abbrev pub with_transactions : List (Option Buffer) → Bool → Connection → Connection
with_transactions descriptors in_transaction c = record {
  config = c.config;
  database_collation = c.database_collation;
  packet_size = c.packet_size;
  transaction_descriptors = descriptors;
  in_transaction = in_transaction;
  proc_return_status_value = c.proc_return_status_value;
  login_error = c.login_error;
  cur_transient_retry_count = c.cur_transient_retry_count;
  ntlmpacket = c.ntlmpacket;
  events = c.events;
}

-- `transactionDescriptors.length = 1`
abbrev pub set_length_1 : List (Option Buffer) → List (Option Buffer)
set_length_1 [] = none ∷ []
set_length_1 (d ∷ ds) = d ∷ []

unfoldable pub on_begin_transaction : Buffer → Connection → Connection
on_begin_transaction descriptor c =
    with_transactions (c.transaction_descriptors ++ (some descriptor ∷ [])) true c

unfoldable pub on_commit_transaction : Connection → Connection
on_commit_transaction c = with_transactions (set_length_1 c.transaction_descriptors) false c

unfoldable pub on_rollback_transaction : Connection → Connection
on_rollback_transaction c =
    emit rollback_event (with_transactions (set_length_1 c.transaction_descriptors) false c)

-- The environment changes that InitialSqlTokenHandler and RequestTokenHandler take, in the same way; those of
-- routing and of the mirroring partner have no method there.
unfoldable pub on_env_change : EnvChangeData → Connection → Handled Connection
unfolding on_begin_transaction on_commit_transaction on_rollback_transaction
on_env_change (database new old) c = handled (emit (database_change new) c)
on_env_change (language new old) c = handled (emit (language_change new) c)
on_env_change (charset new old) c = handled (emit (charset_change new) c)
on_env_change (collation_change new old) c = handled (with_database_collation new c)
on_env_change (packet_size new old) c = handled (with_packet_size new c)
on_env_change (begin_transaction new old) c = handled (on_begin_transaction new c)
on_env_change (commit_transaction new old) c = handled (on_commit_transaction c)
on_env_change (rollback_transaction new old) c = handled (on_rollback_transaction c)
on_env_change (reset_connection new old) c = handled (emit reset_event c)
on_env_change (routing new old) c = unexpected_token
on_env_change (database_mirroring_partner new old) c = unexpected_token

-- InitialSqlTokenHandler
unfoldable pub initial_sql_handler : Token → Connection → Handled Connection
unfolding on_env_change
initial_sql_handler (info_message message) c = handled (emit (info_event message) c)
initial_sql_handler (error_message message) c = handled (emit (error_event message) c)
initial_sql_handler (env_change change) c = on_env_change change c
initial_sql_handler (col_metadata columns) c = handled (emit closed (emit unexpected_columns c))
initial_sql_handler (order columns) c = handled (emit closed (emit unexpected_order c))
initial_sql_handler (row columns) c = handled (emit closed (emit unexpected_row c))
initial_sql_handler (nbc_row columns) c = handled (emit closed (emit unexpected_row c))
initial_sql_handler (return_status value) c = handled c
initial_sql_handler (return_value value) c = handled c
initial_sql_handler (done_proc message) c = handled c
initial_sql_handler (done_in_proc message) c = handled c
initial_sql_handler (done message) c = handled c
initial_sql_handler (login_ack message) c = unexpected_token
initial_sql_handler (feature_ext_ack fed_auth utf8) c = unexpected_token
initial_sql_handler (sspi challenge bytes) c = unexpected_token
initial_sql_handler (fed_auth_info spn stsurl) c = unexpected_token
