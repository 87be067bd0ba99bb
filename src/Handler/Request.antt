-- ===== src/Handler/Request.antt =====
-- lib/token/handler.js: RequestTokenHandler and AttentionTokenHandler.
use tedious.Prelude.{
  ℕ, ◌+◌, Bool, true, false, ◌&&◌, Option, none, some, List, [], ◌∷◌, ◌++◌, ltb, length,
  if◌then◌else◌,
}
use tedious.Prelude.Int.{ℤ}
use tedious.Buffer.{JsString}
use tedious.Prelude.Double.{to_double}
use tedious.Token.{
  Token, DoneData, MessageData, ColumnMetadata, RowColumns, col_metadata, done, done_in_proc,
  done_proc, info_message, error_message, login_ack, order, return_status, feature_ext_ack,
  env_change, row, nbc_row, return_value, sspi, fed_auth_info,
}
use tedious.Token.Row.{same_name}
use tedious.Handler.{
  SocketError, columns_by_name, columns_array, Event, Connection, Handled, handled,
  unexpected_token, emit, info_event, error_event, column_metadata, order_event, row_event,
  return_value_event, done_proc_event, done_in_proc_event, done_event,
}
use tedious.Handler.Session.{on_env_change}

-- A RequestError of an ERROR token, several of them, or 'An unknown error has occurred.'; and those of
-- lib/connection.js: 'ECANCEL', 'ETIMEOUT', 'ECLOSE', 'EINVALIDSTATE', of the payload, and of the socket.
pub data RequestError : Type 0 where
  request_error : MessageData → RequestError
  aggregate_error : List MessageData → RequestError
  unknown_error : RequestError
  canceled_error timeout_error close_error invalid_state_error payload_error : RequestError
  socket_error_of : SocketError → RequestError

-- The request, and the handler with the connection. `is_request`: an instance of Request, not a bulk load.
pub record Handler : Type 0 where
  pub connection : Connection
  pub is_request : Bool
  pub canceled : Bool
  pub error : Option RequestError
  pub row_count : ℕ
  pub rows : List RowColumns
  pub rst : List RowColumns
  pub errors : List MessageData

abbrev pub with_connection : (Connection → Connection) → Handler → Handler
with_connection f h = record {
  connection = f h.connection;
  is_request = h.is_request;
  canceled = h.canceled;
  error = h.error;
  row_count = h.row_count;
  rows = h.rows;
  rst = h.rst;
  errors = h.errors;
}

abbrev pub emits : Event → Handler → Handler
emits event h = with_connection (emit event) h

-- `if (!this.request.canceled)`
abbrev pub unless_canceled : (Handler → Handler) → Handler → Handler
unless_canceled f h = if h.canceled then h else f h

-- The aggregate is for a request of more than one error.
abbrev pub error_of : Bool → List MessageData → MessageData → RequestError
error_of is_request errors m =
    if is_request && ltb 1 (length errors) then aggregate_error errors else request_error m

abbrev pub push_error : MessageData → Handler → Handler
push_error m h = record {
  connection = h.connection;
  is_request = h.is_request;
  canceled = h.canceled;
  error = some (error_of h.is_request (h.errors ++ (m ∷ [])) m);
  row_count = h.row_count;
  rows = h.rows;
  rst = h.rst;
  errors = h.errors ++ (m ∷ []);
}

unfoldable pub on_error_message : MessageData → Handler → Handler
on_error_message m h = unless_canceled (push_error m) (emits (error_event m) h)

abbrev pub has_column : JsString → List ColumnMetadata → Bool
has_column name [] = false
has_column name (c ∷ cs) = if same_name c.col_name name then true else has_column name cs

-- `if (columns[col.colName] == null) columns[col.colName] = col`, for each column in order.
unfoldable pub columns_of : List ColumnMetadata → List ColumnMetadata → List ColumnMetadata
columns_of columns [] = columns
columns_of columns (c ∷ cs) =
    columns_of (if has_column c.col_name columns then columns else columns ++ (c ∷ [])) cs

unfoldable pub on_col_metadata : List ColumnMetadata → Handler → Handler
unfolding columns_of
on_col_metadata columns h =
    emits
      (column_metadata (
        if h.connection.config.use_column_names
        then columns_by_name (columns_of [] columns)
        else columns_array columns))
      h

abbrev pub push_if : Bool → List RowColumns → RowColumns → List RowColumns
push_if collect rows columns = if collect then rows ++ (columns ∷ []) else rows

abbrev pub push_row : RowColumns → Handler → Handler
push_row columns h = record {
  connection = h.connection;
  is_request = h.is_request;
  canceled = h.canceled;
  error = h.error;
  row_count = h.row_count;
  rows = push_if h.connection.config.row_collection_on_request_completion h.rows columns;
  rst = push_if h.connection.config.row_collection_on_done h.rst columns;
  errors = h.errors;
}

unfoldable pub on_row : RowColumns → Handler → Handler
on_row columns h = emits (row_event columns) (push_row columns h)

abbrev pub with_return_status : Option ℤ → Connection → Connection
with_return_status value c = record {
  config = c.config;
  database_collation = c.database_collation;
  packet_size = c.packet_size;
  transaction_descriptors = c.transaction_descriptors;
  in_transaction = c.in_transaction;
  proc_return_status_value = value;
  login_error = c.login_error;
  cur_transient_retry_count = c.cur_transient_retry_count;
  ntlmpacket = c.ntlmpacket;
  events = c.events;
}

abbrev pub or_unknown : Bool → Option RequestError → Option RequestError
or_unknown sql_error (some error) = some error
or_unknown sql_error none = if sql_error then some unknown_error else none

-- `if (token.sqlError && !this.request.error)`
abbrev pub check_error : DoneData → Handler → Handler
check_error d h = record {
  connection = h.connection;
  is_request = h.is_request;
  canceled = h.canceled;
  error = or_unknown d.sql_error h.error;
  row_count = h.row_count;
  rows = h.rows;
  rst = h.rst;
  errors = h.errors;
}

-- `+=` on numbers, which are doubles.
abbrev pub plus : ℕ → Option ℕ → ℕ
plus n none = n
plus n (some k) = to_double (n + k)

-- `if (token.rowCount !== undefined) …`, `if (rowCollectionOnDone) this.request.rst = []`
abbrev pub count_rows : DoneData → Handler → Handler
count_rows d h = record {
  connection = h.connection;
  is_request = h.is_request;
  canceled = h.canceled;
  error = h.error;
  row_count = plus h.row_count d.row_count;
  rows = h.rows;
  rst = if h.connection.config.row_collection_on_done then [] else h.rst;
  errors = h.errors;
}

abbrev pub emit_done_proc : DoneData → Handler → Handler
emit_done_proc d h =
    with_connection (with_return_status none)
      (emits (done_proc_event d.row_count d.more h.connection.proc_return_status_value h.rst) h)

abbrev pub emit_done_in_proc : DoneData → Handler → Handler
emit_done_in_proc d h = emits (done_in_proc_event d.row_count d.more h.rst) h

abbrev pub emit_done : DoneData → Handler → Handler
emit_done d h = emits (done_event d.row_count d.more h.rst) h

unfoldable pub on_done_proc : DoneData → Handler → Handler
on_done_proc d h = count_rows d (emit_done_proc d (check_error d h))

unfoldable pub on_done_in_proc : DoneData → Handler → Handler
on_done_in_proc d h = count_rows d (emit_done_in_proc d h)

unfoldable pub on_done : DoneData → Handler → Handler
on_done d h = count_rows d (emit_done d (check_error d h))

abbrev pub on_handled : Handler → Handled Connection → Handled Handler
on_handled h (handled c) = handled (with_connection (λ _. c) h)
on_handled h unexpected_token = unexpected_token

-- RequestTokenHandler
unfoldable pub request_handler : Token → Handler → Handled Handler
unfolding on_env_change on_error_message on_col_metadata on_row on_done_proc on_done_in_proc on_done
request_handler (info_message m) h = handled (emits (info_event m) h)
request_handler (error_message m) h = handled (on_error_message m h)
request_handler (env_change change) h = on_handled h (on_env_change change h.connection)
request_handler (col_metadata columns) h = handled (unless_canceled (on_col_metadata columns) h)
request_handler (order columns) h = handled (unless_canceled (emits (order_event columns)) h)
request_handler (row columns) h = handled (unless_canceled (on_row columns) h)
request_handler (nbc_row columns) h = handled (unless_canceled (on_row columns) h)
request_handler (return_status value) h =
    handled (unless_canceled (with_connection (with_return_status (some value))) h)
request_handler (return_value value) h =
    handled (unless_canceled (emits (return_value_event value)) h)
request_handler (done_proc d) h = handled (unless_canceled (on_done_proc d) h)
request_handler (done_in_proc d) h = handled (unless_canceled (on_done_in_proc d) h)
request_handler (done d) h = handled (unless_canceled (on_done d) h)
request_handler (login_ack ack) h = unexpected_token
request_handler (feature_ext_ack fed_auth utf8) h = unexpected_token
request_handler (sspi challenge bytes) h = unexpected_token
request_handler (fed_auth_info spn stsurl) h = unexpected_token

-- AttentionTokenHandler: its state is `attentionReceived`, and every other token is unexpected.
unfoldable pub attention_handler : Token → Bool → Handled Bool
attention_handler (done d) received = handled (if d.attention then true else received)
attention_handler t received = unexpected_token
