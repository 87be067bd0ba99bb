-- ===== src/Connection/Run/Settled/Timely.antt =====
-- lib/connection.js: histories in which what comes, comes in the state that waits for it.
use tedious.Prelude.{◌≡◌, refl, ap, ◌∙◌, true, false, some, List}
use tedious.Handler.{Connection, cancel_timed_out, retry_event}
use tedious.Connection.{
  State, connecting, sent_prelogin, sent_tlssslnegotiation, sent_login7_with_fedauth,
  logged_in_sending_initial_sql, sent_client_request, sent_attention, state_code, Task, Pending,
  Machine, emits_event, transition_to, close,
}
use tedious.Connection.Steps.{
  dispatch_socket_error, retry_timeout, waits_for, remove_task, connect_timeout, request_timeout,
  with_payload_error,
}
use tedious.Connection.Responses.{LoginKind, with_standard_login, with_ntlm, with_fedauth}
use tedious.Connection.Run.{
  cancels_dropped, Arrival, Input, resume, machine_step, task_of, task_of_login,
  without_connect_timer, connects, closes_connection, cancels, requests, connect_timer_fires,
  cancel_timer_fires, request_timer_fires, retry_timer_fires, socket_fails, socket_ends,
  socket_closes, message_finishes, payload_fails, token_comes, arrives, socket_found,
  socket_refused, lookup_refused, prelogin_arrives, tls_done, login_arrives, token_arrives,
  token_refusal, initial_arrives, response_arrives, response_ends, attention_arrives, fails,
}
use tedious.Connection.Run.Settled.{
  busy_count, is_down, IsSettled, IsTimely, task_state, Reach, start, later,
}
use tedious.Connection.Run.Settled.Moves.{transition_to-IsSettled, final-IsSettled}
use tedious.Connection.Run.Settled.Calls.{
  OkSettled, if_-OkSettled, IsReady-down, request_of, dispatch_socket_error-OkSettled,
  socket_error-OkSettled, socket_end-OkSettled, socket_close-IsSettled, connect-IsSettled,
  connect_timeout-IsSettled,
}
use tedious.Connection.Run.Settled.Requests.{
  cancel_request-IsSettled, cancel_dropped-IsSettled, request_timeout-OkSettled,
  on_request-IsSettled, make_request-IsSettled,
}
use tedious.Connection.Run.Settled.Arrivals.{
  IsOpen, IsOpen-at, socket_connected-IsSettled, send_login-IsSettled, prelogin_received-OkSettled,
  login_response-OkSettled, token_received-IsSettled, token_failed-IsSettled,
  initial_response-OkSettled,
}
use tedious.Connection.Run.Settled.Answers.{
  IsBusy, response_started-IsSettled, response_token-OkSettled, response_ended-OkSettled,
  attention_response-OkSettled,
}

login-IsOpen :
    (kind : LoginKind) (m : Machine)
    → m.state ≡ task_state (task_of_login kind)
    → IsSettled m
    → IsOpen m
login-IsOpen with_standard_login m e h = IsOpen-at m _ e refl refl h
login-IsOpen with_ntlm m e h = IsOpen-at m _ e refl refl h
login-IsOpen with_fedauth m e h = IsOpen-at m _ e refl refl h

IsBusy-at :
    (s : State) (m : Machine)
    → m.state ≡ s
    → busy_count (state_code s) ≡ 1
    → is_down (state_code s) ≡ false
    → IsSettled m
    → (r : Pending) × IsBusy r s m
IsBusy-at s m e one up h =
    let (r, x) = request_of m.request (h.busy ∙ ap (λ t. busy_count (state_code t)) e ∙ one) in
    (r, record { settled = h; held = x; here = e; one = one; up = up })

resume-OkSettled :
    (a : Arrival) (m : Machine) → IsTimely (arrives a) m → IsSettled m → OkSettled (resume a m)
unfolding resume
resume-OkSettled socket_found m q h =
    socket_connected-IsSettled m (ap (λ t. busy_count (state_code t)) q.0) h
resume-OkSettled (socket_refused e) m q h = socket_error-OkSettled e (without_connect_timer m) h
resume-OkSettled lookup_refused m q h = h
resume-OkSettled (prelogin_arrives buf) m q h =
    prelogin_received-OkSettled buf q.1.0 m q.1.1 (IsOpen-at m sent_prelogin q.0 refl refl h)
resume-OkSettled tls_done m q h =
    send_login-IsSettled m (IsOpen-at m sent_tlssslnegotiation q.0 refl refl h)
resume-OkSettled (login_arrives kind tokens) m q h =
    login_response-OkSettled kind tokens m q.1 (login-IsOpen kind m q.0 h)
resume-OkSettled token_arrives m q h =
    token_received-IsSettled m (IsOpen-at m sent_login7_with_fedauth q.0 refl refl h)
resume-OkSettled token_refusal m q h = token_failed-IsSettled m h
resume-OkSettled (initial_arrives tokens) m q h =
    initial_response-OkSettled tokens m q.1
      (IsOpen-at m logged_in_sending_initial_sql q.0 refl refl h)
resume-OkSettled response_arrives m q h =
    let (r, b) = IsBusy-at sent_client_request m q.0 refl refl h in response_started-IsSettled r m b
resume-OkSettled response_ends m q h =
    let (r, b) = IsBusy-at sent_client_request m q.0 refl refl h in response_ended-OkSettled r m b
resume-OkSettled (attention_arrives tokens) m q h =
    let (r, b) = IsBusy-at sent_attention m q.0 refl refl h in
    attention_response-OkSettled tokens r m q.1 b
resume-OkSettled (fails task e) m q h = socket_error-OkSettled e m h

-- Without the task the arrival is as timely as with it.
task_taken :
    (a : Arrival) (ts : List Task) (m : Machine)
    → IsTimely (arrives a) m
    → IsTimely (arrives a) (record m { tasks = ts })
task_taken socket_found ts m q = q
task_taken (socket_refused e) ts m q = q
task_taken lookup_refused ts m q = q
task_taken (prelogin_arrives buf) ts m q = q
task_taken tls_done ts m q = q
task_taken (login_arrives kind tokens) ts m q = q
task_taken token_arrives ts m q = q
task_taken token_refusal ts m q = q
task_taken (initial_arrives tokens) ts m q = q
task_taken response_arrives ts m q = q
task_taken response_ends ts m q = q
task_taken (attention_arrives tokens) ts m q = q
task_taken (fails task e) ts m q = q

pub machine_step-OkSettled :
    (i : Input) (m : Machine) → IsTimely i m → IsSettled m → OkSettled (machine_step i m)
unfolding machine_step close retry_timeout
machine_step-OkSettled connects m q h = connect-IsSettled m h
machine_step-OkSettled closes_connection m q h = final-IsSettled m h
machine_step-OkSettled cancels m q h = cancel_request-IsSettled m h
machine_step-OkSettled (cancels_dropped id) m q h = cancel_dropped-IsSettled id m q h
machine_step-OkSettled (requests is_request canceled has_timeout is_sql_batch error) m q h =
    make_request-IsSettled is_request canceled has_timeout is_sql_batch error m h
machine_step-OkSettled connect_timer_fires m q h =
    if_-OkSettled m.connect_timer (some (connect_timeout m)) (some m)
      (λ x. connect_timeout-IsSettled m h) λ x. h
machine_step-OkSettled cancel_timer_fires m q h =
    if_-OkSettled m.cancel_timer (dispatch_socket_error cancel_timed_out m) (some m)
      (λ x. dispatch_socket_error-OkSettled cancel_timed_out m h) λ x. h
machine_step-OkSettled request_timer_fires m q h =
    if_-OkSettled m.request_timer (request_timeout m) (some m)
      (λ x. request_timeout-OkSettled m x h) λ x. h
machine_step-OkSettled retry_timer_fires m q h =
    let n = emits_event retry_event (record m { retry_timer = false }) in
    if_-OkSettled m.retry_timer (some (transition_to connecting n)) (some m)
      (λ x.
        transition_to-IsSettled connecting n
          (IsReady-down connecting n (ap (λ t. busy_count (state_code t)) q) refl h))
      λ x. h
machine_step-OkSettled (socket_fails e) m q h = socket_error-OkSettled e m h
machine_step-OkSettled socket_ends m q h = socket_end-OkSettled m h
machine_step-OkSettled socket_closes m q h = socket_close-IsSettled m h
machine_step-OkSettled message_finishes m q h =
    on_request-IsSettled (λ r. record r { finished = true }) m h
machine_step-OkSettled payload_fails m q h = on_request-IsSettled with_payload_error m h
machine_step-OkSettled (token_comes token) m q h =
    let (r, x) = request_of m.request (h.busy ∙ q.0) in response_token-OkSettled token r m x q.1 h
machine_step-OkSettled (arrives a) m q h =
    let ts = remove_task (task_of a) m.tasks in
    if_-OkSettled (waits_for (task_of a) m.tasks) (resume a (record m { tasks = ts })) (some m)
      (λ x. resume-OkSettled a (record m { tasks = ts }) (task_taken a ts m q) h) λ x. h

pub reached : {m n : Machine} → IsSettled m → Reach m n → IsSettled n
reached h start = h
reached h (later {n = n} {n' = n'} i r q e) =
    let k = machine_step-OkSettled i n q (reached h r) in rw e at k
