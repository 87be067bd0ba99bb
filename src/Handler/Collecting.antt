-- ===== src/Handler/Collecting.antt =====
-- A response that goes to RequestTokenHandler of lib/token/handler.js, for a request that is not canceled.
use tedious.Prelude.{
  ℕ, ◌≡◌, refl, sym, Bool, false, Option, none, some, List, [], ◌∷◌, ◌++◌, All, append-nil,
  append_assoc,
}
use tedious.Token.{
  Token, EnvChangeData, MessageData, RowColumns, col_metadata, done, done_in_proc, done_proc,
  info_message, error_message, login_ack, order, return_status, feature_ext_ack, env_change, row,
  nbc_row, return_value, sspi, fed_auth_info, database, language, charset,
  database_mirroring_partner, packet_size, begin_transaction, commit_transaction,
  rollback_transaction, reset_connection, collation_change, routing,
}
use tedious.Handler.{
  Connection, Handled, handled, unexpected_token, error_event, info_event, order_event,
  return_value_event,
}
use tedious.Handler.Session.{
  on_env_change, on_begin_transaction, on_commit_transaction, on_rollback_transaction,
}
use tedious.Handler.Request.{
  Handler, RequestError, or_unknown, request_handler, on_handled, unless_canceled, emits,
  push_error, with_connection, with_return_status, on_error_message, on_col_metadata, on_row,
  on_done_proc, on_done_in_proc, on_done,
}
use tedious.Handler.Dispatch.{
  Succeeds, and_handle-Succeeds, handle_all, IsResponse, IsSessionChange,
}
use tedious.Handler.Requests.{
  add_count, Collected, count_of, row_of, error_message_of, total_count, all_rows, all_errors,
  unless_live, push_error-Collected, on_row-Collected, kept, counted,
}

-- No change of the environment changes the configuration.
on_env_change-config :
    (change : EnvChangeData) (c : Connection)
    → IsSessionChange change
    → Succeeds (λ c'. c'.config ≡ c.config) (on_env_change change c)
unfolding on_env_change on_begin_transaction on_commit_transaction on_rollback_transaction
on_env_change-config (database new old) c q = refl
on_env_change-config (language new old) c q = refl
on_env_change-config (charset new old) c q = refl
on_env_change-config (collation_change new old) c q = refl
on_env_change-config (packet_size new old) c q = refl
on_env_change-config (begin_transaction new old) c q = refl
on_env_change-config (commit_transaction new old) c q = refl
on_env_change-config (rollback_transaction new old) c q = refl
on_env_change-config (reset_connection new old) c q = refl
on_env_change-config (routing new old) c q = absurd q
on_env_change-config (database_mirroring_partner new old) c q = absurd q

keep : (e : Option RequestError) → e ≡ or_unknown false e
keep none = refl
keep (some e) = refl

module _ (b collects : Bool) (initial : Option RequestError) (count : ℕ) (rows : List RowColumns)
    (errors : List MessageData) (h : Handler)
    (c : Collected b collects initial count rows errors h) where
  on_handled-Collected :
      (r : Handled Connection)
      → Succeeds (λ c'. c'.config ≡ h.connection.config) r
      → Succeeds (Collected b collects initial count (rows ++ []) (errors ++ [])) (on_handled h r)
  on_handled-Collected (handled c') e =
      kept b collects initial count rows errors h c (with_connection (λ _. c') h) refl refl e refl
        refl refl refl
  on_handled-Collected unexpected_token e = absurd e

  -- A live request that keeps what it has collected.
  live-Collected :
      (f : Handler → Handler)
      → Collected b collects initial count (rows ++ []) (errors ++ []) (f h)
      → Collected b collects initial count (rows ++ []) (errors ++ []) (unless_canceled f h)
  live-Collected f k =
      unless_live (Collected b collects initial count (rows ++ []) (errors ++ [])) f h c.live k

  pub request_handler-Collected :
      (token : Token)
      → IsResponse token
      → Succeeds
          (Collected b collects initial
            (add_count count (count_of token))
            (rows ++ row_of token)
            (errors ++ error_message_of token))
          (request_handler token h)
  unfolding request_handler on_error_message on_col_metadata on_done_proc on_done_in_proc on_done
  request_handler-Collected (env_change change) q =
      on_handled-Collected (on_env_change change h.connection)
        (on_env_change-config change h.connection q)
  request_handler-Collected (info_message m) q =
      kept b collects initial count rows errors h c (emits (info_event m) h) refl refl refl refl
        refl refl refl
  request_handler-Collected (error_message m) q =
      unless_live (Collected b collects initial count (rows ++ []) (errors ++ (m ∷ [])))
        (push_error m) (emits (error_event m) h) c.live
        (push_error-Collected b collects initial count rows errors h c m)
  request_handler-Collected (col_metadata m) q = live-Collected (on_col_metadata m) (
      kept b collects initial count rows errors h c (on_col_metadata m h) refl refl refl refl refl
        refl refl)
  request_handler-Collected (order m) q = live-Collected (emits (order_event m)) (
      kept b collects initial count rows errors h c (emits (order_event m) h) refl refl refl refl
        refl refl refl)
  request_handler-Collected (return_status m) q =
      live-Collected (with_connection (with_return_status (some m))) (
        kept b collects initial count rows errors h c
          (with_connection (with_return_status (some m)) h) refl refl refl refl refl refl refl)
  request_handler-Collected (return_value m) q = live-Collected (emits (return_value_event m)) (
      kept b collects initial count rows errors h c (emits (return_value_event m) h) refl refl refl
        refl refl refl refl)
  request_handler-Collected (row m) q =
      unless_live (Collected b collects initial count (rows ++ (m ∷ [])) (errors ++ [])) (on_row m)
        h c.live (on_row-Collected b collects initial count rows errors h c m)
  request_handler-Collected (nbc_row m) q =
      unless_live (Collected b collects initial count (rows ++ (m ∷ [])) (errors ++ [])) (on_row m)
        h c.live (on_row-Collected b collects initial count rows errors h c m)
  request_handler-Collected (done_proc m) q =
      unless_live
        (Collected b collects initial (add_count count m.row_count) (rows ++ []) (errors ++ []))
        (on_done_proc m) h c.live
        (counted b collects initial count rows errors h c m (on_done_proc m h) (m.sql_error) refl
          refl refl refl refl refl refl)
  request_handler-Collected (done_in_proc m) q =
      unless_live
        (Collected b collects initial (add_count count m.row_count) (rows ++ []) (errors ++ []))
        (on_done_in_proc m) h c.live
        (counted b collects initial count rows errors h c m (on_done_in_proc m h) (false) refl refl
          refl refl refl refl (keep h.error))
  request_handler-Collected (done m) q =
      unless_live
        (Collected b collects initial (add_count count m.row_count) (rows ++ []) (errors ++ []))
        (on_done m) h c.live
        (counted b collects initial count rows errors h c m (on_done m h) (m.sql_error) refl refl
          refl refl refl refl refl)
  request_handler-Collected (login_ack m) q = absurd q
  request_handler-Collected (feature_ext_ack m n) q = absurd q
  request_handler-Collected (sspi m n) q = absurd q
  request_handler-Collected (fed_auth_info m n) q = absurd q

-- For a request that is not canceled, the response, of tokens that are no login's, is taken to its end;
-- the request's rowCount has grown, as a double that is rounded at each step, by the row counts of the DONE tokens; its
-- `rows` have got all rows, in order, if they are collected on completion, and none else; the errors are those of the
-- ERROR tokens, in order; and the request's error is the only one of them, for a Request all of them, for a bulk load the
-- last, or without an ERROR token the error that the request object had before, or the unknown error in place of none.
pub request_handler_collects :
    (b collects : Bool) (initial : Option RequestError) (tokens : List Token) (count : ℕ)
    (rows : List RowColumns) (errors : List MessageData) (h : Handler)
    → All IsResponse tokens
    → Collected b collects initial count rows errors h
    → Succeeds
        (Collected b collects initial
          (total_count count tokens)
          (rows ++ all_rows tokens)
          (errors ++ all_errors tokens))
        (handle_all request_handler tokens h)
unfolding handle_all
request_handler_collects b collects initial [] count rows errors h q c =
    rw (append-nil rows, append-nil errors) c
request_handler_collects b collects initial (token ∷ tokens) count rows errors h q c =
    rw
      (
        sym (append_assoc rows (row_of token) (all_rows tokens)),
        sym (append_assoc errors (error_message_of token) (all_errors tokens)),
      )
      (and_handle-Succeeds
        (Collected b collects initial (add_count count (count_of token)) (rows ++ row_of token)
          (errors ++ error_message_of token))
        _ (request_handler token h) (handle_all request_handler tokens)
        (request_handler-Collected b collects initial count rows errors h c token q.0)
        λ h' c'.
          request_handler_collects b collects initial tokens (add_count count (count_of token))
            (rows ++ row_of token) (errors ++ error_message_of token) h' q.1 c')
