-- ===== src/Tests/Handlers.antt =====
-- Handlers of lib/token/handler.js on short responses.
use tedious.Prelude.{refl, Bool, true, false, none, some, List, [], ◌∷◌, ◌++◌, inl}
use tedious.Token.{
  Token, DoneData, MessageData, array, done, row, error_message, env_change, begin_transaction,
  login_ack,
}
use tedious.Handler.{Config, Connection, sql_default}
use tedious.Handler.Login7.{Login7, login7_handler}
use tedious.Handler.Request.{Handler, request_handler}
use tedious.Handler.Dispatch.{Succeeds, handle_all}
use tedious.Handler.Transactions.{
  Represents, no_transaction, transaction_after_all, request_handler_transactions,
}
use tedious.Handler.Requests.{Collected, total_count, all_rows, all_errors}
use tedious.Handler.Collecting.{request_handler_collects}
use tedious.Handler.Canceled.{IsUntouched, request_handler_canceled}
use tedious.Handler.Acknowledged.{HasAck, ack_after, login7_handler_ack}
use tedious.Handler.{current_transaction_descriptor, last_descriptor}

abbrev config : Config
config = record {
  authentication_type = sql_default;
  max_retries_on_transient_errors = 3;
  use_column_names = false;
  row_collection_on_done = false;
  row_collection_on_request_completion = true;
  tds_version = 55 ∷ 95 ∷ 52 ∷ [];
}

-- Outside of any transaction.
abbrev pub idle : Connection
idle = record {
  config = config;
  database_collation = none;
  packet_size = none;
  transaction_descriptors = some no_transaction ∷ [];
  in_transaction = false;
  proc_return_status_value = none;
  login_error = none;
  cur_transient_retry_count = 0;
  ntlmpacket = none;
  events = [];
}

abbrev request : Bool → Handler
request canceled = record {
  connection = idle;
  is_request = true;
  canceled = canceled;
  error = none;
  row_count = 0;
  rows = [];
  rst = [];
  errors = [];
}

abbrev pub finished : DoneData
finished = record {
  more = false;
  sql_error = false;
  attention = false;
  server_error = false;
  row_count = some 1;
  cur_cmd = 0xC1;
}

abbrev failure : MessageData
failure = record {
  number = 208;
  state = 1;
  clazz = 16;
  message = 33 ∷ [];
  server_name = [];
  proc_name = [];
  line_number = 1;
}

-- A row without columns, a transaction that is begun, an error, and the end.
abbrev pub response : List Token
response =
    row (array [])
    ∷ env_change (begin_transaction (1 ∷ 2 ∷ 3 ∷ 4 ∷ 5 ∷ 6 ∷ 7 ∷ 8 ∷ []) [])
    ∷ error_message failure
    ∷ done finished
    ∷ []

idle-Represents : Represents none idle
unfolding current_transaction_descriptor last_descriptor
idle-Represents = record { consistent = (refl, refl); current = refl; inside = refl }

request_handler_transactions_example :
    Succeeds
      (λ h. Represents (transaction_after_all response none) h.connection)
      (handle_all request_handler response (request false))
request_handler_transactions_example =
    request_handler_transactions response none (request false) (tt, (tt, (tt, (tt, tt))))
      idle-Represents

request_handler_canceled_example :
    Succeeds (IsUntouched (request true)) (handle_all request_handler response (request true))
request_handler_canceled_example =
    request_handler_canceled response (request true) refl (tt, (tt, (tt, (tt, tt))))

abbrev login : Login7
login = record {
  connection = idle;
  login_ack_received = false;
  fed_auth_info_token = none;
  routing_data = none;
}

-- An acknowledgement of '7_4', for the interface SQL_TSQL.
abbrev pub acknowledgement : List Token
acknowledgement =
    login_ack (record {
      interface = some (83 ∷ []);
      tds_version = some (55 ∷ 95 ∷ 52 ∷ []);
      prog_name = [];
      prog_version = record { major = 15; minor = 0; build_num_hi = 7; build_num_low = 208 };
    })
    ∷ done finished
    ∷ []

login7_handler_ack_example :
    Succeeds
      (HasAck (ack_after acknowledgement (false, 55 ∷ 95 ∷ 52 ∷ [])))
      (handle_all login7_handler acknowledgement login)
login7_handler_ack_example =
    login7_handler_ack acknowledgement (false, 55 ∷ 95 ∷ 52 ∷ []) login (tt, (tt, tt)) (refl, refl)

-- A request with its rows collected on completion.
fresh-Collected : Collected true true none 0 [] [] (request false)
fresh-Collected = record {
  live = refl;
  kind = refl;
  config = refl;
  row_count = refl;
  all_rows = refl;
  all_errors = refl;
  error = inl refl;
}

request_handler_collects_example :
    Succeeds
      (Collected true true none
        (total_count 0 response)
        ([] ++ all_rows response)
        ([] ++ all_errors response))
      (handle_all request_handler response (request false))
request_handler_collects_example =
    request_handler_collects true true none response 0 [] [] (request false)
      (tt, (tt, (tt, (tt, tt)))) fresh-Collected
