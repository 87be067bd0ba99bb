-- ===== src/Connection/Run.antt =====
-- lib/connection.js: the history of a connection, as a list of what happens to it.
pub mod Answered
pub mod Order
pub mod Settled
use tedious.Prelude.{ℕ, Bool, true, false, Option, none, some, List, [], ◌∷◌, ◌==◌, if◌then◌else◌}
use tedious.Buffer.{Buffer}
use tedious.Token.{Token}
use tedious.Handler.Request.{RequestError}
use tedious.Handler.{Connection, SocketError, lookup_failed, cancel_timed_out, connect_failed_event}
use tedious.Connection.{
  State, initialized, connecting, state_code, Task, socket_task, prelogin_task, tls_task,
  standard_task, ntlm_task, fedauth_task, token_task, initial_task, response_task, end_task,
  attention_task, Pending, Settings, Machine, emits_event, transition_to, close,
}
use tedious.Connection.Steps.{
  cancel_dropped, dispatch_socket_error, socket_error, socket_end, socket_close, waits_for,
  remove_task, connect_timeout, retry_timeout, cancel_request, request_timeout, with_payload_error,
  on_request, make_request, socket_connected, send_login, prelogin_received,
}
use tedious.Connection.Responses.{
  LoginKind, with_standard_login, with_ntlm, with_fedauth, login_response, token_received,
  token_failed, initial_response, response_started, response_token, response_ended,
  attention_response, and_go_on,
}

-- What a task gets that it waits for.
pub data Arrival : Type 0 where
  socket_found : Arrival
  socket_refused : SocketError → Arrival
  lookup_refused : Arrival
  prelogin_arrives : Buffer → Arrival
  tls_done : Arrival
  login_arrives : LoginKind → List Token → Arrival
  token_arrives token_refusal : Arrival
  initial_arrives : List Token → Arrival
  response_arrives response_ends : Arrival
  attention_arrives : List Token → Arrival
  -- The message, or the handshake, fails.
  fails : Task → SocketError → Arrival

pub data Input : Type 0 where
  -- Calls of the user; a connect() in another state than INITIALIZED throws to its caller and changes nothing.
  connects closes_connection cancels : Input
  -- Request.cancel of a request that was dropped, by its number.
  cancels_dropped : ℕ → Input
  requests :
      (is_request canceled has_timeout is_sql_batch : Bool) (error : Option RequestError) → Input
  -- Timers.
  connect_timer_fires cancel_timer_fires request_timer_fires retry_timer_fires : Input
  -- The socket, the message and payload of the request, a token of its response.
  socket_fails : SocketError → Input
  socket_ends socket_closes message_finishes payload_fails : Input
  token_comes : Token → Input
  arrives : Arrival → Input

abbrev pub task_of_login : LoginKind → Task
task_of_login with_standard_login = standard_task
task_of_login with_ntlm = ntlm_task
task_of_login with_fedauth = fedauth_task

-- The task that it goes to.
abbrev pub task_of : Arrival → Task
task_of socket_found = socket_task
task_of (socket_refused e) = socket_task
task_of lookup_refused = socket_task
task_of (prelogin_arrives buf) = prelogin_task
task_of tls_done = tls_task
task_of (login_arrives kind tokens) = task_of_login kind
task_of token_arrives = token_task
task_of token_refusal = token_task
task_of (initial_arrives tokens) = initial_task
task_of response_arrives = response_task
task_of response_ends = end_task
task_of (attention_arrives tokens) = attention_task
task_of (fails task e) = task

abbrev pub without_connect_timer : Machine → Machine
without_connect_timer m = record m { connect_timer = false }

unfoldable pub resume : Arrival → Machine → Option Machine
unfolding socket_error socket_connected send_login prelogin_received login_response token_received
    token_failed initial_response response_started response_ended attention_response
resume socket_found m = some (socket_connected m)
resume (socket_refused e) m = socket_error e (without_connect_timer m)
resume lookup_refused m =
    some (emits_event (connect_failed_event lookup_failed) (without_connect_timer m))
resume (prelogin_arrives buf) m = prelogin_received buf m
resume tls_done m = some (send_login m)
resume (login_arrives kind tokens) m = login_response kind tokens m
resume token_arrives m = some (token_received m)
resume token_refusal m = some (token_failed m)
resume (initial_arrives tokens) m = initial_response tokens m
resume response_arrives m = some (response_started m)
resume response_ends m = response_ended m
resume (attention_arrives tokens) m = attention_response tokens m
resume (fails task e) m = socket_error e m

-- A timer that is not set does not fire (cancelTimeout leaves `this.cancelTimer` as it is), and nothing arrives without a task that waits for it.
abbrev pub arrival_step : Arrival → Machine → Option Machine
arrival_step a m =
    if waits_for (task_of a) m.tasks
    then resume a (record m { tasks = remove_task (task_of a) m.tasks })
    else some m

abbrev pub if_set : Bool → Option Machine → Machine → Option Machine
if_set timer next m = if timer then next else some m

unfoldable pub machine_step : Input → Machine → Option Machine
unfolding resume transition_to close cancel_request make_request connect_timeout request_timeout
    retry_timeout dispatch_socket_error socket_error socket_end socket_close response_token
    waits_for remove_task cancel_dropped
machine_step connects m =
    some (if state_code m.state == state_code initialized then transition_to connecting m else m)
machine_step closes_connection m = some (close m)
machine_step cancels m = some (cancel_request m)
machine_step (cancels_dropped id) m = some (cancel_dropped id m)
machine_step (requests is_request canceled has_timeout is_sql_batch error) m =
    some (make_request is_request canceled has_timeout is_sql_batch error m)
machine_step connect_timer_fires m = if_set m.connect_timer (some (connect_timeout m)) m
machine_step cancel_timer_fires m =
    if_set m.cancel_timer (dispatch_socket_error cancel_timed_out m) m
machine_step request_timer_fires m = if_set m.request_timer (request_timeout m) m
machine_step retry_timer_fires m = if_set m.retry_timer (some (retry_timeout m)) m
machine_step (socket_fails e) m = socket_error e m
machine_step socket_ends m = socket_end m
machine_step socket_closes m = some (socket_close m)
machine_step message_finishes m = some (on_request (λ r. record r { finished = true }) m)
machine_step payload_fails m = some (on_request with_payload_error m)
machine_step (token_comes token) m = response_token token m
machine_step (arrives a) m = arrival_step a m

unfoldable pub run_all : List Input → Machine → Option Machine
unfolding machine_step
run_all [] m = some m
run_all (i ∷ is) m = and_go_on (machine_step i m) (run_all is)

-- `new Connection(config)`
abbrev pub new_machine : Settings → Connection → Machine
new_machine settings connection = record {
  settings = settings;
  state = initialized;
  connection = connection;
  request = none;
  detached = none;
  dropped = [];
  closed = false;
  connect_timer = false;
  cancel_timer = false;
  request_timer = false;
  retry_timer = false;
  routing_data = none;
  fed_auth_required = false;
  is_sql_batch = false;
  tasks = [];
  accepted = 0;
  answers = [];
  refusals = [];
  messages = [];
}
