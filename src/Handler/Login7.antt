-- ===== src/Handler/Login7.antt =====
-- lib/token/handler.js: Login7TokenHandler, with lib/transient-error-lookup.js.
use tedious.Prelude.{
  ℕ, Bool, true, false, not, ◌&&◌, ◌||◌, Option, none, some, [], ◌∷◌, ◌==◌, length, if◌then◌else◌,
}
use tedious.Buffer.{Buffer, JsString}
use tedious.Token.{
  Token, EnvChangeData, MessageData, LoginAckData, Routing, Challenge, col_metadata, done,
  done_in_proc, done_proc, info_message, error_message, login_ack, order, return_status,
  feature_ext_ack, env_change, row, nbc_row, return_value, sspi, fed_auth_info, database, language,
  charset, database_mirroring_partner, packet_size, begin_transaction, commit_transaction,
  rollback_transaction, reset_connection, collation_change, routing,
}
use tedious.Handler.{
  AuthenticationType, sql_default, ntlm, Connection, LoginError, login_failed, no_acknowledgement,
  extra_data, unknown_feature, not_requested, unknown_tds_version, unsupported_interface, Handled,
  handled, unexpected_token, emit, info_event, error_event, database_change, language_change,
  charset_change,
}
use tedious.Handler.Session.{with_database_collation, with_packet_size}

-- TransientErrorLookup.isTransientError
unfoldable pub is_transient_error : ℕ → Bool
is_transient_error n =
    n == 4060 || n == 10928 || n == 10929 || n == 40197 || n == 40501 || n == 40613

-- The handler with its connection. `routing_data` is the server and the port.
pub record Login7 : Type 0 where
  pub connection : Connection
  pub login_ack_received : Bool
  pub fed_auth_info_token : Option (Option JsString × Option JsString)
  pub routing_data : Option (JsString × ℕ)

abbrev pub on_connection : (Connection → Connection) → Login7 → Login7
on_connection f h = record {
  connection = f h.connection;
  login_ack_received = h.login_ack_received;
  fed_auth_info_token = h.fed_auth_info_token;
  routing_data = h.routing_data;
}

abbrev pub with_login_error : LoginError → Connection → Connection
with_login_error error c = record {
  config = c.config;
  database_collation = c.database_collation;
  packet_size = c.packet_size;
  transaction_descriptors = c.transaction_descriptors;
  in_transaction = c.in_transaction;
  proc_return_status_value = c.proc_return_status_value;
  login_error = some error;
  cur_transient_retry_count = c.cur_transient_retry_count;
  ntlmpacket = c.ntlmpacket;
  events = c.events;
}

abbrev pub with_ntlmpacket : Challenge → Buffer → Connection → Connection
with_ntlmpacket challenge bytes c = record {
  config = c.config;
  database_collation = c.database_collation;
  packet_size = c.packet_size;
  transaction_descriptors = c.transaction_descriptors;
  in_transaction = c.in_transaction;
  proc_return_status_value = c.proc_return_status_value;
  login_error = c.login_error;
  cur_transient_retry_count = c.cur_transient_retry_count;
  ntlmpacket = some (challenge, bytes);
  events = c.events;
}

abbrev pub with_tds_version : JsString → Connection → Connection
with_tds_version version c = record {
  config = record {
    authentication_type = c.config.authentication_type;
    max_retries_on_transient_errors = c.config.max_retries_on_transient_errors;
    use_column_names = c.config.use_column_names;
    row_collection_on_done = c.config.row_collection_on_done;
    row_collection_on_request_completion = c.config.row_collection_on_request_completion;
    tds_version = version;
  };
  database_collation = c.database_collation;
  packet_size = c.packet_size;
  transaction_descriptors = c.transaction_descriptors;
  in_transaction = c.in_transaction;
  proc_return_status_value = c.proc_return_status_value;
  login_error = c.login_error;
  cur_transient_retry_count = c.cur_transient_retry_count;
  ntlmpacket = c.ntlmpacket;
  events = c.events;
}

-- `isLoginErrorTransient && curTransientRetryCount !== maxRetriesOnTransientErrors`
unfoldable pub may_retry : ℕ → Connection → Bool
unfolding is_transient_error
may_retry n c =
    is_transient_error n
    && not (c.cur_transient_retry_count == c.config.max_retries_on_transient_errors)

unfoldable pub on_login_error_message : MessageData → Connection → Connection
unfolding may_retry
on_login_error_message m c =
    with_login_error (login_failed m.message (may_retry m.number c)) (emit (error_event m) c)

abbrev pub uses_active_directory : AuthenticationType → Bool
uses_active_directory sql_default = false
uses_active_directory ntlm = false
uses_active_directory t = true

-- Where an acknowledgement of Active Directory authentication is due.
abbrev pub acknowledged : Option Buffer → Connection → Connection
acknowledged none c = with_login_error no_acknowledgement c
acknowledged (some bytes) c = if length bytes == 0 then c else with_login_error extra_data c

-- Where it is not.
abbrev pub unacknowledged : Option Buffer → Option Bool → Connection → Connection
unacknowledged none none c = with_login_error unknown_feature c
unacknowledged none (some utf8) c = c
unacknowledged (some bytes) utf8 c = with_login_error not_requested c

unfoldable pub on_feature_ext_ack : Option Buffer → Option Bool → Connection → Connection
on_feature_ext_ack fed_auth utf8_support c =
    if uses_active_directory c.config.authentication_type
    then acknowledged fed_auth c
    else unacknowledged fed_auth utf8_support c

abbrev pub receive_ack : JsString → Login7 → Login7
receive_ack version h = record {
  connection = with_tds_version version h.connection;
  login_ack_received = true;
  fed_auth_info_token = h.fed_auth_info_token;
  routing_data = h.routing_data;
}

-- `!token.tdsVersion`, `!token.interface`: the names in the tables are not empty.
abbrev pub ack_of : Option JsString → Option JsString → Login7 → Login7
ack_of none interface h = on_connection (with_login_error unknown_tds_version) h
ack_of (some version) none h = on_connection (with_login_error unsupported_interface) h
ack_of (some version) (some interface) h = receive_ack version h

unfoldable pub on_login_ack : LoginAckData → Login7 → Login7
on_login_ack ack h = ack_of ack.tds_version ack.interface h

-- `const [server] = token.newValue.server.split('\\')`
unfoldable pub before_backslash : JsString → JsString
before_backslash [] = []
before_backslash (c ∷ cs) = let rest = before_backslash cs in if c == 0x5c then [] else c ∷ rest

unfoldable pub on_routing_change : Routing → Login7 → Login7
unfolding before_backslash
on_routing_change new h = record {
  connection = h.connection;
  login_ack_received = h.login_ack_received;
  fed_auth_info_token = h.fed_auth_info_token;
  routing_data = some (before_backslash new.server, new.port);
}

abbrev pub with_fed_auth_info : Option JsString → Option JsString → Login7 → Login7
with_fed_auth_info spn stsurl h = record {
  connection = h.connection;
  login_ack_received = h.login_ack_received;
  fed_auth_info_token = some (spn, stsurl);
  routing_data = h.routing_data;
}

unfoldable pub on_login_env_change : EnvChangeData → Login7 → Handled Login7
unfolding on_routing_change
on_login_env_change (database new old) h = handled (on_connection (emit (database_change new)) h)
on_login_env_change (language new old) h = handled (on_connection (emit (language_change new)) h)
on_login_env_change (charset new old) h = handled (on_connection (emit (charset_change new)) h)
on_login_env_change (collation_change new old) h =
    handled (on_connection (with_database_collation new) h)
on_login_env_change (packet_size new old) h = handled (on_connection (with_packet_size new) h)
on_login_env_change (routing new old) h = handled (on_routing_change new h)
on_login_env_change (database_mirroring_partner new old) h = handled h
on_login_env_change (begin_transaction new old) h = unexpected_token
on_login_env_change (commit_transaction new old) h = unexpected_token
on_login_env_change (rollback_transaction new old) h = unexpected_token
on_login_env_change (reset_connection new old) h = unexpected_token

-- Login7TokenHandler
unfoldable pub login7_handler : Token → Login7 → Handled Login7
unfolding on_login_error_message on_feature_ext_ack on_login_ack on_login_env_change
login7_handler (info_message m) h = handled (on_connection (emit (info_event m)) h)
login7_handler (error_message m) h = handled (on_connection (on_login_error_message m) h)
login7_handler (sspi challenge bytes) h =
    handled (on_connection (with_ntlmpacket challenge bytes) h)
login7_handler (env_change change) h = on_login_env_change change h
login7_handler (fed_auth_info spn stsurl) h = handled (with_fed_auth_info spn stsurl h)
login7_handler (feature_ext_ack fed_auth utf8) h =
    handled (on_connection (on_feature_ext_ack fed_auth utf8) h)
login7_handler (login_ack ack) h = handled (on_login_ack ack h)
login7_handler (done_in_proc d) h = handled h
login7_handler (done d) h = handled h
login7_handler (done_proc d) h = unexpected_token
login7_handler (col_metadata columns) h = unexpected_token
login7_handler (order columns) h = unexpected_token
login7_handler (row columns) h = unexpected_token
login7_handler (nbc_row columns) h = unexpected_token
login7_handler (return_status value) h = unexpected_token
login7_handler (return_value value) h = unexpected_token
