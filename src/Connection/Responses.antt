-- ===== src/Connection/Responses.antt =====
-- lib/connection.js: the responses, whose tokens go to the handlers of lib/token/handler.js.
use tedious.Prelude.{ℕ, Bool, true, false, ◌&&◌, Option, none, some, List, [], ◌∷◌, if◌then◌else◌}
use tedious.Buffer.{str_lt, JsString}
use tedious.Token.{Token, col_metadata, order, row, nbc_row, env_change, info_message}
use tedious.Handler.{
  Connection, LoginError, login_failed, token_refused, Handled, handled, unexpected_token,
  login_rejected, login_refused, connected_event, connect_failed_event,
}
use tedious.Handler.Session.{initial_sql_handler}
use tedious.Handler.Login7.{Login7, login7_handler, with_login_error}
use tedious.Handler.Request.{
  Handler, RequestError, timeout_error, canceled_error, request_handler, attention_handler,
}
use tedious.Handler.Dispatch.{handle_all}
use tedious.Connection.{
  rerouting, transient_failure_retry, sent_login7_with_standard_login, logged_in,
  logged_in_sending_initial_sql, sent_attention, final, ntlm_task, token_task, end_task, Pending,
  failed, completed, ntlm_message, fed_auth_token_message, Machine, emits_event, starts, sends,
  transition_to, close,
}
use tedious.Connection.Steps.{call_back}

abbrev pub is_transient : LoginError → Bool
is_transient (login_failed text transient) = transient
is_transient e = false

-- `else if (this.loginError) …`
abbrev pub not_acknowledged : Option LoginError → Machine → Machine
not_acknowledged none m = transition_to final (emits_event (connect_failed_event login_refused) m)
not_acknowledged (some e) m =
    if is_transient e
    then transition_to transient_failure_retry m
    else transition_to final (emits_event (connect_failed_event (login_rejected e)) m)

abbrev pub acknowledged_login : Option (JsString × ℕ) → Machine → Machine
acknowledged_login none m = transition_to logged_in_sending_initial_sql m
acknowledged_login (some r) m = transition_to rerouting (record m { routing_data = some r })

-- Which of the three states has read the response.
pub data LoginKind : Type 0 where
  with_standard_login with_ntlm with_fedauth : LoginKind

abbrev pub without_ntlmpacket : Connection → Connection
without_ntlmpacket c = record c { ntlmpacket = none }

-- `else if (this.ntlmpacket)`: the answer to the challenge is sent, and the loop waits for the next message.
abbrev pub answer_challenge : Machine → Machine
answer_challenge m = elim m.connection.ntlmpacket [
  | none ↦ not_acknowledged m.connection.login_error m
  | some packet ↦
      starts ntlm_task
        (sends ntlm_message (record m { connection = without_ntlmpacket m.connection }))
]

-- A string that is neither undefined nor empty.
abbrev pub is_present : Option JsString → Bool
is_present none = false
is_present (some []) = false
is_present (some (c ∷ cs)) = true

-- `else if (fedAuthInfoToken && …)`: a token is asked for, at what URL makes of the spn, or throws.
abbrev pub ask_token : Option (Option JsString × Option JsString) → Machine → Option Machine
ask_token none m = some (not_acknowledged m.connection.login_error m)
ask_token (some (none, stsurl)) m = some (not_acknowledged m.connection.login_error m)
ask_token (some (some spn, stsurl)) m =
    if is_present stsurl && is_present (some spn)
    then (if m.settings.resolves_url spn then some (starts token_task m) else none)
    else some (not_acknowledged m.connection.login_error m)

abbrev pub other_login : LoginKind → Login7 → Machine → Option Machine
other_login with_standard_login h m = some (not_acknowledged m.connection.login_error m)
other_login with_ntlm h m = some (answer_challenge m)
other_login with_fedauth h m = ask_token h.fed_auth_info_token m

abbrev pub login_end : LoginKind → Login7 → Machine → Option Machine
login_end kind h m =
    if h.login_ack_received
    then some (acknowledged_login h.routing_data m)
    else other_login kind h m

-- `new Login7TokenHandler(this)`
abbrev pub new_login7 : Connection → Login7
new_login7 c = record {
  connection = c;
  login_ack_received = false;
  fed_auth_info_token = none;
  routing_data = none;
}

-- A token that is not expected is thrown, and nothing catches it.
abbrev pub after_login : LoginKind → Machine → Handled Login7 → Option Machine
after_login kind m unexpected_token = none
after_login kind m (handled h) = login_end kind h (record m { connection = h.connection })

unfoldable pub login_response : LoginKind → List Token → Machine → Option Machine
unfolding handle_all login7_handler transition_to
login_response kind tokens m =
    after_login kind m (handle_all login7_handler tokens (new_login7 m.connection))

-- sendFedAuthTokenMessage
unfoldable pub token_received : Machine → Machine
unfolding transition_to
token_received m = transition_to sent_login7_with_standard_login (sends fed_auth_token_message m)

unfoldable pub token_failed : Machine → Machine
unfolding transition_to
token_failed m = transition_to final (
    emits_event (connect_failed_event (login_rejected token_refused))
      (record m { connection = with_login_error token_refused m.connection }))

-- The tokens whose methods in InitialSqlTokenHandler call close().
abbrev pub closes : Token → Bool
closes (col_metadata columns) = true
closes (order columns) = true
closes (row columns) = true
closes (nbc_row columns) = true
closes token = false

abbrev pub after_initial : Bool → Machine → Handled Connection → Option Machine
after_initial closing m unexpected_token = none
after_initial closing m (handled c) =
    let n = record m { connection = c } in some (if closing then close n else n)

-- processedInitialSql behind the transition.
abbrev pub initial_end : Machine → Machine
initial_end m =
    let n = transition_to logged_in m in
    emits_event connected_event (record n { connect_timer = false })

abbrev pub and_go_on : Option Machine → (Machine → Option Machine) → Option Machine
and_go_on none f = none
and_go_on (some m) f = f m

unfoldable pub initial_response : List Token → Machine → Option Machine
unfolding initial_sql_handler transition_to close
initial_response [] m = some (initial_end m)
initial_response (token ∷ tokens) m =
    and_go_on (after_initial (closes token) m (initial_sql_handler token m.connection))
      (initial_response tokens)

-- `new RequestTokenHandler(this, this.request)`, and the listeners.
abbrev pub receives : Pending → Pending
receives r = record r { errors = []; receiving = true }

abbrev pub receive_response : Option Pending → Machine → Machine
receive_response request m = starts end_task (record m { detached = none; request = request })

abbrev pub start_response : Option Pending → Machine → Machine
start_response none m = receive_response none m
start_response (some r) m =
    if r.canceled && m.cancel_timer
    then transition_to sent_attention
        (record m { detached = none; request = some (record r { errors = [] }) })
    else receive_response (some (receives r)) m

unfoldable pub response_started : Machine → Machine
unfolding transition_to
response_started m = start_response m.request (record m { request_timer = false })

abbrev pub handler_of : Connection → Pending → Handler
handler_of c r = record {
  connection = c;
  is_request = r.is_request;
  canceled = r.canceled;
  error = r.error;
  row_count = r.row_count;
  rows = r.rows;
  rst = r.rst;
  errors = r.errors;
}

abbrev pub pending_of : Handler → Pending → Pending
pending_of h r = record r {
  error = h.error;
  row_count = h.row_count;
  rows = h.rows;
  rst = h.rst;
  errors = h.errors;
}

abbrev pub after_response_token : Machine → Pending → Handled Handler → Option Machine
after_response_token m r unexpected_token = none
after_response_token m r (handled h) =
    some (record m { connection = h.connection; request = some (pending_of h r) })

-- The same for the request that the connection has no longer.
abbrev pub after_detached : Machine → Pending → Handled Handler → Option Machine
after_detached m r unexpected_token = none
after_detached m r (handled h) =
    some (record m { connection = h.connection; detached = some (pending_of h r) })

-- A handler without a request: the methods read `this.request.canceled`, but for those of these two tokens.
abbrev pub takes_no_request : Token → Bool
takes_no_request (info_message message) = true
takes_no_request (env_change change) = true
takes_no_request token = false

abbrev pub nobody : Pending
nobody = record {
  id = 0;
  is_request = false;
  canceled = false;
  error = none;
  row_count = 0;
  rows = [];
  rst = [];
  errors = [];
  finished = false;
  receiving = false;
}

abbrev pub after_nobody : Machine → Handled Handler → Option Machine
after_nobody m unexpected_token = none
after_nobody m (handled h) = some (record m { connection = h.connection })

abbrev pub give_token : Option Pending → Option Pending → Token → Machine → Option Machine
give_token (some r) detached token m =
    after_response_token m r (request_handler token (handler_of m.connection r))
give_token none (some r) token m =
    after_detached m r (request_handler token (handler_of m.connection r))
give_token none none token m =
    if takes_no_request token
    then after_nobody m (request_handler token (handler_of m.connection nobody))
    else none

unfoldable pub response_token : Token → Machine → Option Machine
unfolding request_handler
response_token token m = give_token m.request m.detached token m

-- `onEndOfMessage`. Before 7.2 a failed batch has ended the transaction.
abbrev pub end_transaction : Bool → Machine → Machine
end_transaction ends m =
    if ends then record m { connection = record m.connection { in_transaction = false } } else m

-- `options.tdsVersion < '7_2'`, of the version that a LOGINACK may have set.
abbrev pub is_before_7_2 : Connection → Bool
is_before_7_2 c = str_lt c.config.tds_version (0x37 ∷ 0x5f ∷ 0x32 ∷ [])

abbrev pub has_error : Pending → Bool
has_error r = elim r.error [ none ↦ false | some e ↦ true ]

abbrev pub end_response : Option Pending → Machine → Option Machine
end_response none m = none
end_response (some r) m = call_back (some r) (completed r.error r.row_count r.rows) (
    end_transaction (is_before_7_2 m.connection && (has_error r && m.is_sql_batch))
      (record (transition_to logged_in m) { request = none }))

unfoldable pub response_ended : Machine → Option Machine
unfolding transition_to
response_ended m = end_response m.request m

-- The call-back of a canceled request: its own timeout, or 'ECANCEL'.
abbrev pub cancel_answer : Option RequestError → RequestError
cancel_answer (some timeout_error) = timeout_error
cancel_answer e = canceled_error

abbrev pub end_attention : Option Pending → Machine → Option Machine
end_attention none m = none
end_attention (some r) m =
    call_back (some r) (failed (cancel_answer r.error))
      (transition_to logged_in (record m { cancel_timer = false; request = none }))

abbrev pub after_attention : Machine → Handled Bool → Option Machine
after_attention m unexpected_token = none
after_attention m (handled false) = some m
after_attention m (handled true) = end_attention m.request m

unfoldable pub attention_response : List Token → Machine → Option Machine
unfolding handle_all attention_handler transition_to
attention_response tokens m = after_attention m (handle_all attention_handler tokens false)
