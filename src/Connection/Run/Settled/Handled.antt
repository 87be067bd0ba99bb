-- ===== src/Connection/Run/Settled/Handled.antt =====
-- The handlers of lib/token/handler.js take the tokens of their responses, without an error.
use tedious.Prelude.{Bool, ◌||◌, List, [], ◌∷◌, All}
use tedious.Token.{
  Token, EnvChangeData, col_metadata, done, done_in_proc, done_proc, info_message, error_message,
  login_ack, order, return_status, feature_ext_ack, env_change, row, nbc_row, return_value, sspi,
  fed_auth_info, database, language, charset, database_mirroring_partner, packet_size,
  begin_transaction, commit_transaction, rollback_transaction, reset_connection, collation_change,
  routing,
}
use tedious.Handler.{Connection, Handled, handled, unexpected_token}
use tedious.Handler.Session.{on_env_change, initial_sql_handler}
use tedious.Handler.Request.{Handler, on_handled, request_handler, attention_handler}
use tedious.Handler.Dispatch.{handle_all, IsResponse, IsSessionChange}
use tedious.Handler.Acknowledged.{attention_of, attention_handler_lem}
use tedious.Connection.Run.Settled.{IsDone}

-- Taken.
abbrev pub Takes : {S : Type 0} → Handled S → Type 0
Takes (handled s) = Unit {0}
Takes unexpected_token = ⊥

on_env_change-Takes :
    (change : EnvChangeData) (c : Connection)
    → IsSessionChange change
    → Takes (on_env_change change c)
unfolding on_env_change
on_env_change-Takes (database new old) c q = tt
on_env_change-Takes (language new old) c q = tt
on_env_change-Takes (charset new old) c q = tt
on_env_change-Takes (collation_change new old) c q = tt
on_env_change-Takes (packet_size new old) c q = tt
on_env_change-Takes (begin_transaction new old) c q = tt
on_env_change-Takes (commit_transaction new old) c q = tt
on_env_change-Takes (rollback_transaction new old) c q = tt
on_env_change-Takes (reset_connection new old) c q = tt
on_env_change-Takes (routing new old) c q = absurd q
on_env_change-Takes (database_mirroring_partner new old) c q = absurd q

pub initial_sql_handler-Takes :
    (token : Token) (c : Connection) → IsResponse token → Takes (initial_sql_handler token c)
unfolding initial_sql_handler
initial_sql_handler-Takes (env_change change) c q = on_env_change-Takes change c q
initial_sql_handler-Takes (info_message m) c q = tt
initial_sql_handler-Takes (error_message m) c q = tt
initial_sql_handler-Takes (col_metadata m) c q = tt
initial_sql_handler-Takes (order m) c q = tt
initial_sql_handler-Takes (row m) c q = tt
initial_sql_handler-Takes (nbc_row m) c q = tt
initial_sql_handler-Takes (return_status m) c q = tt
initial_sql_handler-Takes (return_value m) c q = tt
initial_sql_handler-Takes (done_proc m) c q = tt
initial_sql_handler-Takes (done_in_proc m) c q = tt
initial_sql_handler-Takes (done m) c q = tt
initial_sql_handler-Takes (login_ack m) c q = absurd q
initial_sql_handler-Takes (feature_ext_ack m n) c q = absurd q
initial_sql_handler-Takes (sspi m n) c q = absurd q
initial_sql_handler-Takes (fed_auth_info m n) c q = absurd q

on_handled-Takes : (h : Handler) (r : Handled Connection) → Takes r → Takes (on_handled h r)
on_handled-Takes h (handled c) q = tt
on_handled-Takes h unexpected_token q = q

pub request_handler-Takes :
    (token : Token) (h : Handler) → IsResponse token → Takes (request_handler token h)
unfolding request_handler
request_handler-Takes (env_change change) h q =
    on_handled-Takes h (on_env_change change h.connection)
      (on_env_change-Takes change h.connection q)
request_handler-Takes (info_message m) h q = tt
request_handler-Takes (error_message m) h q = tt
request_handler-Takes (col_metadata m) h q = tt
request_handler-Takes (order m) h q = tt
request_handler-Takes (row m) h q = tt
request_handler-Takes (nbc_row m) h q = tt
request_handler-Takes (return_status m) h q = tt
request_handler-Takes (return_value m) h q = tt
request_handler-Takes (done_proc m) h q = tt
request_handler-Takes (done_in_proc m) h q = tt
request_handler-Takes (done m) h q = tt
request_handler-Takes (login_ack m) h q = absurd q
request_handler-Takes (feature_ext_ack m n) h q = absurd q
request_handler-Takes (sspi m n) h q = absurd q
request_handler-Takes (fed_auth_info m n) h q = absurd q

attention_of-Takes :
    (tokens : List Token) (b : Bool) → All IsDone tokens → Takes (attention_of tokens b)
unfolding attention_of
attention_of-Takes [] b q = tt
attention_of-Takes (done d ∷ tokens) b q = attention_of-Takes tokens (d.attention || b) q.1
attention_of-Takes (info_message d ∷ tokens) b q = absurd q.0
attention_of-Takes (error_message d ∷ tokens) b q = absurd q.0
attention_of-Takes (env_change d ∷ tokens) b q = absurd q.0
attention_of-Takes (login_ack d ∷ tokens) b q = absurd q.0
attention_of-Takes (done_proc d ∷ tokens) b q = absurd q.0
attention_of-Takes (done_in_proc d ∷ tokens) b q = absurd q.0
attention_of-Takes (col_metadata d ∷ tokens) b q = absurd q.0
attention_of-Takes (order d ∷ tokens) b q = absurd q.0
attention_of-Takes (row d ∷ tokens) b q = absurd q.0
attention_of-Takes (nbc_row d ∷ tokens) b q = absurd q.0
attention_of-Takes (return_status d ∷ tokens) b q = absurd q.0
attention_of-Takes (return_value d ∷ tokens) b q = absurd q.0
attention_of-Takes (feature_ext_ack d e ∷ tokens) b q = absurd q.0
attention_of-Takes (sspi d e ∷ tokens) b q = absurd q.0
attention_of-Takes (fed_auth_info d e ∷ tokens) b q = absurd q.0

pub attention_handler-Takes :
    (tokens : List Token) (b : Bool)
    → All IsDone tokens
    → Takes (handle_all attention_handler tokens b)
attention_handler-Takes tokens b q =
    rw (attention_handler_lem tokens b) (attention_of-Takes tokens b q)
