-- ===== src/Connection.antt =====
-- class Connection of lib/connection.js: its states, and what their `enter` and `exit` do. An async function is a
-- task from the point where it waits; it goes on when the thing comes that it waits for, in whatever state the
-- connection is by then. A call-back, and a listener of the user, runs behind the step that calls it.
pub mod Steps
pub mod Responses
pub mod Run
use tedious.Prelude.{
  ℕ, suc, ◌+◌, Bool, true, false, not, ◌&&◌, Option, none, some, List, [], ◌∷◌, ◌==◌, if◌then◌else◌,
}
use tedious.Buffer.{Buffer, JsString}
use tedious.Token.{MessageData, RowColumns}
use tedious.Handler.{
  Connection, Event, SocketError, ConnectFailure, LoginError, emit, end_event, rerouting_event,
}
use tedious.Handler.Request.{Handler, RequestError, close_error}

-- STATE
pub data State : Type 0 where
  initialized connecting sent_prelogin rerouting transient_failure_retry : State
  sent_tlssslnegotiation sent_login7_with_standard_login sent_login7_with_ntlm : State
  sent_login7_with_fedauth logged_in_sending_initial_sql logged_in sent_client_request : State
  sent_attention final : State

abbrev pub state_code : State → ℕ
state_code initialized = 0
state_code connecting = 1
state_code sent_prelogin = 2
state_code rerouting = 3
state_code transient_failure_retry = 4
state_code sent_tlssslnegotiation = 5
state_code sent_login7_with_standard_login = 6
state_code sent_login7_with_ntlm = 7
state_code sent_login7_with_fedauth = 8
state_code logged_in_sending_initial_sql = 9
state_code logged_in = 10
state_code sent_client_request = 11
state_code sent_attention = 12
state_code final = 13

-- What is waited for: a socket, a message in one of the states, the end of the TLS handshake, a security token,
-- or the end of the response that is being parsed.
pub data Task : Type 0 where
  socket_task prelogin_task tls_task standard_task ntlm_task fedauth_task token_task : Task
  initial_task response_task end_task attention_task : Task

abbrev pub task_code : Task → ℕ
task_code socket_task = 0
task_code prelogin_task = 1
task_code tls_task = 2
task_code standard_task = 3
task_code ntlm_task = 4
task_code fedauth_task = 5
task_code token_task = 6
task_code initial_task = 7
task_code response_task = 8
task_code end_task = 9
task_code attention_task = 10

-- A request that was taken, by its number, with the fields of its object and of its RequestTokenHandler. `finished`:
-- its message was sent in full; `receiving`: the cancel listener of SENT_CLIENT_REQUEST is registered.
pub record Pending : Type 0 where
  pub id : ℕ
  pub is_request : Bool
  pub canceled : Bool
  pub error : Option RequestError
  pub row_count : ℕ
  pub rows : List RowColumns
  pub rst : List RowColumns
  pub errors : List MessageData
  pub finished : Bool
  pub receiving : Bool

-- The arguments of a call of `request.callback`.
pub data Answer : Type 0 where
  failed : RequestError → Answer
  completed : Option RequestError → ℕ → List RowColumns → Answer

pub data SentMessage : Type 0 where
  prelogin_message login7_message ntlm_message fed_auth_token_message : SentMessage
  initial_sql_message attention_message : SentMessage
  request_message : ℕ → SentMessage

-- `config.options.encrypt`
pub data Encrypt : Type 0 where
  no_encryption encryption strict : Encrypt

-- The options that matter here, with whether the cancel timeout is positive; and whether `new URL('/.default', spn)` of
-- Node takes its argument, where it throws for what is no URL.
pub record Settings : Type 0 where
  pub encrypt : Encrypt
  pub has_cancel_timeout : Bool
  pub resolves_url : JsString → Bool

-- The timers are kept as whether they are set. `detached`: the request that a RequestTokenHandler still has when
-- `this.request` is no more; `dropped`: those that were let go with their listeners of `cancel` still registered. The numbers of the requests are those in which makeRequest took them; `answers` has
-- the calls of their call-backs, the last one first, and `refusals` those of requests that were not taken.
pub record Machine : Type 0 where
  pub settings : Settings
  pub state : State
  pub connection : Connection
  pub request : Option Pending
  pub detached : Option Pending
  pub dropped : List Pending
  pub closed : Bool
  pub connect_timer : Bool
  pub cancel_timer : Bool
  pub request_timer : Bool
  pub retry_timer : Bool
  pub routing_data : Option (JsString × ℕ)
  pub fed_auth_required : Bool
  pub is_sql_batch : Bool
  pub tasks : List Task
  pub accepted : ℕ
  pub answers : List (ℕ × Answer)
  pub refusals : List RequestError
  pub messages : List SentMessage

abbrev pub emits_event : Event → Machine → Machine
emits_event event m = record m { connection = emit event m.connection }

abbrev pub starts : Task → Machine → Machine
starts task m = record m { tasks = task ∷ m.tasks }

abbrev pub sends : SentMessage → Machine → Machine
sends message m = record m { messages = message ∷ m.messages }

-- `curTransientRetryCount++`
abbrev pub count_retry : Connection → Connection
count_retry c = record c { cur_transient_retry_count = c.cur_transient_retry_count + 1 }

abbrev pub without_login_error : Connection → Connection
without_login_error c = record c { login_error = none }

abbrev pub answered : Option Pending → Answer → List (ℕ × Answer) → List (ℕ × Answer)
answered none answer answers = answers
answered (some r) answer answers = (r.id, answer) ∷ answers

-- CLEANUP_TYPE, by what is emitted.
pub data CleanupType : Type 0 where
  normal redirect retry : CleanupType

abbrev pub cleanup_emits : CleanupType → Connection → Connection
cleanup_emits normal c = emit end_event c
cleanup_emits redirect c = emit rerouting_event c
cleanup_emits retry c = c

abbrev pub or_else : Option Pending → Option Pending → Option Pending
or_else none d = d
or_else (some r) d = some r

abbrev pub drop_request : Option Pending → List Pending → List Pending
drop_request none rs = rs
drop_request (some r) rs = r ∷ rs

-- The source calls the call-back before it clears the request and sets `closed`. A call-back that itself calls the
-- connection runs behind the step here, so that the order is not seen.
abbrev pub clean : CleanupType → Machine → Machine
clean type m = record m {
  connection = without_login_error (cleanup_emits type m.connection);
  request = none;
  detached = or_else m.request m.detached;
  dropped = drop_request m.request m.dropped;
  closed = true;
  connect_timer = false;
  request_timer = false;
  retry_timer = false;
  answers = answered m.request (failed close_error) m.answers;
}

unfoldable pub cleanup_connection : CleanupType → Machine → Machine
cleanup_connection type m = if m.closed then m else clean type m

-- initialiseConnection, to the point where it waits for a socket.
abbrev pub initialise_connection : Machine → Machine
initialise_connection m = starts socket_task (record m { connect_timer = true })

unfoldable pub enter : State → Machine → Machine
unfolding cleanup_connection
enter initialized m = m
enter connecting m = initialise_connection m
enter sent_prelogin m = starts prelogin_task m
enter rerouting m = cleanup_connection redirect m
enter transient_failure_retry m =
    cleanup_connection retry (record m { connection = count_retry m.connection })
enter sent_tlssslnegotiation m = m
enter sent_login7_with_standard_login m = starts standard_task m
enter sent_login7_with_ntlm m = starts ntlm_task m
enter sent_login7_with_fedauth m = starts fedauth_task m
enter logged_in_sending_initial_sql m = starts initial_task (sends initial_sql_message m)
enter logged_in m = m
enter sent_client_request m = starts response_task m
enter sent_attention m = starts attention_task m
enter final m = cleanup_connection normal m

-- Only SENT_CLIENT_REQUEST has an `exit`, which clears the request timer.
abbrev pub leave : Machine → Machine
leave m = record m {
  request_timer =
      if state_code m.state == state_code sent_client_request then false else m.request_timer;
}

unfoldable pub transition_to : State → Machine → Machine
unfolding enter
transition_to s m =
    if state_code m.state == state_code s then m else enter s (record (leave m) { state = s })

unfoldable pub close : Machine → Machine
unfolding transition_to
close m = transition_to final m
