-- ===== src/Connection/Steps.antt =====
-- lib/connection.js: what may happen to a connection, and what the connection does then. `none` is an error that
-- nothing catches. Of two responses that are parsed at once, after a close() within a response, only the newer one is
-- followed.
use tedious.Prelude.{
  map, ℕ, suc, Bool, true, false, not, ◌||◌, Option, none, some, List, [], ◌∷◌, ◌==◌, if◌then◌else◌,
}
use tedious.Buffer.{Buffer}
use tedious.Prelogin.{Prelogin, extract_options}
use tedious.Handler.{
  AuthenticationType, SocketError, hang_up, connect_timed_out, encryption_required, socket_failed,
  retry_event, no_such_event, connect_failed_event, lost_event, ntlm, active_directory_access_token,
}
use tedious.Handler.Login7.{uses_active_directory}
use tedious.Handler.Request.{
  RequestError, canceled_error, timeout_error, invalid_state_error, socket_error_of, payload_error,
}
use tedious.Connection.{
  drop_request, State, connecting, sent_prelogin, rerouting, transient_failure_retry,
  sent_tlssslnegotiation, sent_login7_with_standard_login, sent_login7_with_ntlm,
  sent_login7_with_fedauth, logged_in, sent_client_request, sent_attention, final, initialized,
  state_code, Task, socket_task, tls_task, end_task, task_code, Pending, Answer, failed,
  prelogin_message, login7_message, attention_message, request_message, Encrypt, no_encryption,
  encryption, strict, Machine, emits_event, starts, sends, or_else, transition_to, close,
}

-- `sqlRequest.callback(…)`, of what `this.request` was: a call on `undefined` throws.
abbrev pub call_back : Option Pending → Answer → Machine → Option Machine
call_back none answer m = none
call_back (some r) answer m = some (record m { answers = (r.id, answer) ∷ m.answers })

abbrev pub without_request : Machine → Machine
without_request m = record m {
  request = none;
  detached = or_else m.request m.detached;
  dropped = drop_request m.request m.dropped;
}

-- The handler of the event socketError, of each state.
unfoldable pub dispatch_socket_error : SocketError → Machine → Option Machine
unfolding transition_to close
dispatch_socket_error e m =
    if state_code m.state == state_code initialized
    then some (close (emits_event no_such_event m))
    else if state_code m.state == state_code sent_client_request
        || state_code m.state == state_code sent_attention
    then call_back m.request (failed (socket_error_of e)) (transition_to final (without_request m))
    else if state_code m.state == state_code final
    then some m
    else some (transition_to final m)

unfoldable pub socket_error : SocketError → Machine → Option Machine
unfolding dispatch_socket_error
socket_error e m = dispatch_socket_error e (
    emits_event
      (if state_code m.state == state_code connecting
          || state_code m.state == state_code sent_tlssslnegotiation
        then connect_failed_event (socket_failed e)
        else lost_event e)
      m)

unfoldable pub socket_end : Machine → Option Machine
unfolding socket_error
socket_end m = if state_code m.state == state_code final then some m else socket_error hang_up m

-- In TRANSIENT_FAILURE_RETRY the event is `retry`, which sets the timer.
unfoldable pub socket_close : Machine → Machine
unfolding transition_to
socket_close m =
    if state_code m.state == state_code rerouting
    then transition_to connecting m
    else if state_code m.state == state_code transient_failure_retry
    then record m { retry_timer = true }
    else transition_to final m

-- A task that goes on is no longer waiting.
unfoldable pub waits_for : Task → List Task → Bool
waits_for task [] = false
waits_for task (t ∷ ts) = (task_code t == task_code task) || waits_for task ts

unfoldable pub remove_task : Task → List Task → List Task
remove_task task [] = []
remove_task task (t ∷ ts) =
    let rest = remove_task task ts in if task_code t == task_code task then ts else t ∷ rest

-- The states whose handler of connectTimeout leads to FINAL.
abbrev pub ends_on_timeout : State → Bool
ends_on_timeout initialized = false
ends_on_timeout logged_in = false
ends_on_timeout sent_client_request = false
ends_on_timeout sent_attention = false
ends_on_timeout final = false
ends_on_timeout s = true

-- The abort signal ends the search for a socket, whose error is then ignored.
unfoldable pub connect_timeout : Machine → Machine
unfolding transition_to close remove_task
connect_timeout m =
    let n =
      emits_event (connect_failed_event connect_timed_out)
        (record m { connect_timer = false; tasks = remove_task socket_task m.tasks }) in
    if ends_on_timeout m.state
    then transition_to final n
    else if state_code m.state == state_code final
    then n
    else close (emits_event no_such_event n)

unfoldable pub retry_timeout : Machine → Machine
unfolding transition_to
retry_timeout m =
    transition_to connecting (emits_event retry_event (record m { retry_timer = false }))

-- The listeners of `cancel`: that of makeRequest while the message is being sent, whose error of the payload comes
-- only where there is none, and _cancelAfterRequestSent behind that.
abbrev pub or_canceled : Option RequestError → Option RequestError
or_canceled none = some canceled_error
or_canceled (some e) = some e

abbrev pub canceled_pending : Pending → Pending
canceled_pending r = record r {
  canceled = true;
  error = if r.finished then r.error else or_canceled r.error;
}

abbrev pub send_attention : Pending → Machine → Machine
send_attention r m =
    if r.finished
    then sends attention_message (record m { cancel_timer = m.settings.has_cancel_timeout })
    else m

-- `onCancel` of SENT_CLIENT_REQUEST, where it is registered: `onEndOfMessage` is removed.
abbrev pub stop_receiving : Pending → Machine → Machine
stop_receiving r m =
    if r.receiving
    then transition_to sent_attention (record m { tasks = remove_task end_task m.tasks })
    else m

-- Request.cancel of the connection's request.
unfoldable pub cancel_pending : Pending → Machine → Machine
unfolding transition_to remove_task
cancel_pending r m =
    if r.canceled
    then m
    else stop_receiving r (send_attention r (record m { request = some (canceled_pending r) }))

unfoldable pub cancel_request : Machine → Machine
unfolding cancel_pending
cancel_request m = elim m.request [ none ↦ m | some r ↦ cancel_pending r m ]

unfoldable pub find_dropped : ℕ → List Pending → Option Pending
find_dropped id [] = none
find_dropped id (r ∷ rs) = let rest = find_dropped id rs in if r.id == id then some r else rest

abbrev pub mark_canceled : ℕ → Pending → Pending
mark_canceled id r = if r.id == id then canceled_pending r else r

-- Request.cancel of a request that the connection has let go: its listeners act all the same.
abbrev pub cancel_listening : Pending → Machine → Machine
cancel_listening r m =
    if r.canceled
    then m
    else stop_receiving r (
        send_attention r (record m {
          dropped = map (mark_canceled r.id) m.dropped;
          detached = elim m.detached [ none ↦ none | some d ↦ some (mark_canceled r.id d) ];
        }))

unfoldable pub cancel_dropped : ℕ → Machine → Machine
unfolding find_dropped transition_to remove_task
cancel_dropped id m = elim (find_dropped id m.dropped) [ none ↦ m | some r ↦ cancel_listening r m ]

abbrev pub set_error : RequestError → Option Pending → Option Pending
set_error e none = none
set_error e (some r) = some (record r { error = some e })

-- `request.cancel()` on `undefined` throws.
abbrev pub time_out : Option Pending → Machine → Option Machine
time_out none m = none
time_out (some r) m =
    let n = cancel_pending r m in some (record n { request = set_error timeout_error n.request })

unfoldable pub request_timeout : Machine → Option Machine
unfolding cancel_pending
request_timeout m = let n = record m { request_timer = false } in time_out n.request n

-- The event `error` of the payload, and `finish` of the message.
abbrev pub with_payload_error : Pending → Pending
with_payload_error r = record r {
  error = elim r.error [ none ↦ some payload_error | some e ↦ some e ];
}

abbrev pub on_request : (Pending → Pending) → Machine → Machine
on_request f m = record m { request = elim m.request [ none ↦ none | some r ↦ some (f r) ] }

abbrev pub new_request : ℕ → Bool → Option RequestError → Pending
new_request id is_request error = record {
  id = id;
  is_request = is_request;
  canceled = false;
  error = error;
  row_count = 0;
  rows = [];
  rst = [];
  errors = [];
  finished = false;
  receiving = false;
}

-- makeRequest, for a request that may be canceled already, with whether it has a timeout and with the error that its object
-- has from an earlier use, which nothing clears.
unfoldable pub make_request :
    (is_request canceled has_timeout is_sql_batch : Bool) (error : Option RequestError)
    → Machine
    → Machine
unfolding transition_to
make_request is_request canceled has_timeout is_sql_batch error m =
    if not (state_code m.state == state_code logged_in)
    then record m { refusals = invalid_state_error ∷ m.refusals }
    else if canceled
    then record m { refusals = canceled_error ∷ m.refusals }
    else transition_to sent_client_request (
        sends (request_message m.accepted) (record m {
          is_sql_batch = is_sql_batch;
          request = some (new_request m.accepted is_request error);
          accepted = suc m.accepted;
          request_timer = has_timeout;
        }))

-- socketHandlingForSendPreLogin
unfoldable pub socket_connected : Machine → Machine
unfolding transition_to
socket_connected m =
    transition_to sent_prelogin (sends prelogin_message (record m { closed = false }))

-- The state behind sendLogin7Packet.
abbrev pub login_state : AuthenticationType → State
login_state ntlm = sent_login7_with_ntlm
login_state active_directory_access_token = sent_login7_with_standard_login
login_state t =
    if uses_active_directory t then sent_login7_with_fedauth else sent_login7_with_standard_login

unfoldable pub send_login : Machine → Machine
unfolding transition_to
send_login m =
    transition_to (login_state m.connection.config.authentication_type)
      (sends login7_message (record m { routing_data = none }))

-- `encryptionString` is 'ON' or 'REQ'.
abbrev pub wants_encryption : Prelogin → Bool
wants_encryption p = elim p.encryption [ none ↦ false | some n ↦ (n == 1) || (n == 3) ]

abbrev pub fed_auth_due : Prelogin → Bool → Bool
fed_auth_due p due = elim p.fed_auth_required [ none ↦ due | some n ↦ (n == 1) || due ]

abbrev pub negotiate : Encrypt → Machine → Machine
negotiate no_encryption m = close (emits_event (connect_failed_event encryption_required) m)
negotiate encryption m = starts tls_task (transition_to sent_tlssslnegotiation m)
negotiate strict m = send_login m

unfoldable pub prelogin_received : Buffer → Machine → Option Machine
unfolding extract_options send_login transition_to close
prelogin_received buf m = elim (extract_options buf) [
  | none ↦ none
  | some p ↦
      let n = record m { fed_auth_required = fed_auth_due p m.fed_auth_required } in
      some (if wants_encryption p then negotiate m.settings.encrypt n else send_login n)
]
