-- ===== src/Handler.antt =====
-- lib/token/handler.js: what the tokens of a response do to the connection and to its request. The events that are
-- emitted, and the calls of close(), are recorded in their order; who listens to them is not modelled.
pub mod Session
pub mod Login7
pub mod Request
pub mod Dispatch
pub mod Transactions
pub mod Requests
pub mod Collecting
pub mod Canceled
pub mod Acknowledged
use tedious.Prelude.{ℕ, ◌+◌, Bool, true, false, Option, none, some, List, [], ◌∷◌, ◌++◌}
use tedious.Prelude.Int.{ℤ}
use tedious.Buffer.{Buffer, JsString}
use tedious.Collation.{Collation}
use tedious.Token.{Token, ColumnMetadata, RowColumns, MessageData, ReturnValueData, Challenge}

-- `columnMetadata`: an object, as its columns under their names, or an array.
pub data Columns : Type 0 where
  columns_by_name columns_array : List ColumnMetadata → Columns

pub data LoginError : Type 0 where
  -- 'ELOGIN', with its text and whether it is transient.
  login_failed : JsString → Bool → LoginError
  no_acknowledgement extra_data unknown_feature not_requested : LoginError
  unknown_tds_version unsupported_interface : LoginError
  -- 'EFEDAUTH', in an AggregateError with the error of the credentials.
  token_refused : LoginError

-- What may end a socket: an error of it, its end ('ECONNRESET'), no answer to an attention in time, and the end of
-- the messages.
pub data SocketError : Type 0 where
  socket_lost hang_up cancel_timed_out end_of_messages : SocketError

-- With `emit('connect', error)`.
pub data ConnectFailure : Type 0 where
  lookup_failed connect_timed_out encryption_required login_refused : ConnectFailure
  socket_failed : SocketError → ConnectFailure
  login_rejected : LoginError → ConnectFailure

-- Emitted on the connection, and on the request.
pub data Event : Type 0 where
  info_event error_event : MessageData → Event
  database_change language_change charset_change : JsString → Event
  rollback_event reset_event : Event
  -- `emit('error', new Error("Received '…' when no sqlRequest is in progress"))`, and `close()` behind it.
  unexpected_columns unexpected_order unexpected_row closed : Event
  -- `emit('connect')` and `emit('connect', error)`; `emit('error', …)` for a lost connection, and for an event
  -- that the state has no handler for.
  connected_event end_event rerouting_event retry_event no_such_event : Event
  connect_failed_event : ConnectFailure → Event
  lost_event : SocketError → Event
  column_metadata : Columns → Event
  order_event : List ℕ → Event
  row_event : RowColumns → Event
  return_value_event : ReturnValueData → Event
  done_proc_event : Option ℕ → Bool → Option ℤ → List RowColumns → Event
  done_in_proc_event done_event : Option ℕ → Bool → List RowColumns → Event

-- `authentication.type`
pub data AuthenticationType : Type 0 where
  sql_default ntlm active_directory_password active_directory_access_token : AuthenticationType
  active_directory_msi_vm active_directory_msi_app_service : AuthenticationType
  active_directory_service_principal_secret active_directory_default : AuthenticationType

-- `config`, as far as the handlers read it.
pub record Config : Type 0 where
  pub authentication_type : AuthenticationType
  pub max_retries_on_transient_errors : ℕ
  pub use_column_names : Bool
  pub row_collection_on_done : Bool
  pub row_collection_on_request_completion : Bool
  pub tds_version : JsString

-- The fields of the connection that the handlers change; a hole of `transactionDescriptors` is `none`.
pub record Connection : Type 0 where
  pub config : Config
  pub database_collation : Option Collation
  pub packet_size : Option ℤ
  pub transaction_descriptors : List (Option Buffer)
  pub in_transaction : Bool
  pub proc_return_status_value : Option ℤ
  pub login_error : Option LoginError
  pub cur_transient_retry_count : ℕ
  pub ntlmpacket : Option (Challenge × Buffer)
  pub events : List Event

-- A handler takes a token, or its method is the one of TokenHandler, which throws UnexpectedTokenError.
pub data Handled (S : Type 0) : Type 0 where
  handled : S → Handled S
  unexpected_token : Handled S

abbrev pub emit : Event → Connection → Connection
emit event c = record {
  config = c.config;
  database_collation = c.database_collation;
  packet_size = c.packet_size;
  transaction_descriptors = c.transaction_descriptors;
  in_transaction = c.in_transaction;
  proc_return_status_value = c.proc_return_status_value;
  login_error = c.login_error;
  cur_transient_retry_count = c.cur_transient_retry_count;
  ntlmpacket = c.ntlmpacket;
  events = c.events ++ (event ∷ []);
}

-- `this.transactionDescriptors[this.transactionDescriptors.length - 1]`, of lib/connection.js.
unfoldable pub last_descriptor : List (Option Buffer) → Option Buffer
last_descriptor [] = none
last_descriptor (d ∷ []) = d
last_descriptor (d ∷ e ∷ ds) = last_descriptor (e ∷ ds)

unfoldable pub current_transaction_descriptor : Connection → Option Buffer
unfolding last_descriptor
current_transaction_descriptor c = last_descriptor c.transaction_descriptors
