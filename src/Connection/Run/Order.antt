-- ===== src/Connection/Run/Order.antt =====
-- The call-backs of requests of lib/connection.js, in any history.
pub mod Calls
pub mod Arrivals
pub mod History
use tedious.Prelude.{
  ℕ, suc, ◌+◌, ◌≤◌, ◌<◌, ◌≡◌, refl, sym, ap, Bool, true, false, not, ◌&&◌, ◌||◌, Option, none, some,
  List, [], ◌∷◌, ◌==◌, arith, if◌then◌else◌,
}
use tedious.Buffer.{Buffer, JsString}
use tedious.Prelogin.{Prelogin, extract_options}
use tedious.Token.{Token, Challenge, info_message}
use tedious.Handler.{
  Connection, SocketError, Handled, handled, unexpected_token, hang_up, cancel_timed_out,
  token_refused, LoginError, encryption_required, login_refused, login_rejected, connect_timed_out,
  connect_failed_event, no_such_event, retry_event, connected_event,
}
use tedious.Handler.Session.{initial_sql_handler}
use tedious.Handler.Login7.{Login7, login7_handler, with_login_error}
use tedious.Handler.Request.{
  socket_error_of, RequestError, timeout_error, canceled_error, invalid_state_error, Handler,
  request_handler, attention_handler,
}
use tedious.Handler.Dispatch.{handle_all}
use tedious.Connection.{
  redirect, retry, normal, count_retry, State, initialized, connecting, sent_prelogin, rerouting,
  transient_failure_retry, sent_tlssslnegotiation, sent_login7_with_standard_login,
  sent_login7_with_ntlm, sent_login7_with_fedauth, logged_in_sending_initial_sql, logged_in,
  sent_client_request, sent_attention, final, state_code, Task, Pending, Encrypt, no_encryption,
  encryption, strict, request_message, login7_message, ntlm_message, ntlm_task, token_task, Answer,
  failed, completed, fed_auth_token_message, prelogin_message, SentMessage, attention_message,
  socket_task, end_task, CleanupType, Settings, Machine, emits_event, starts, sends, clean,
  cleanup_connection, enter, leave, transition_to, close,
}
use tedious.Connection.Steps.{
  set_error, fed_auth_due, login_state, with_payload_error, waits_for, call_back, without_request,
  dispatch_socket_error, socket_error, socket_end, socket_close, remove_task, ends_on_timeout,
  connect_timeout, retry_timeout, canceled_pending, send_attention, stop_receiving, cancel_pending,
  cancel_request, time_out, request_timeout, on_request, new_request, make_request,
  socket_connected, send_login, negotiate, wants_encryption, prelogin_received,
}
use tedious.Connection.Responses.{
  LoginKind, receive_response, receives, after_response_token, after_detached, after_nobody,
  handler_of, nobody, takes_no_request, has_error, cancel_answer, is_transient, is_present,
  new_login7, without_ntlmpacket, with_standard_login, with_ntlm, with_fedauth, not_acknowledged,
  acknowledged_login, answer_challenge, ask_token, other_login, login_end, after_login,
  login_response, token_received, token_failed, after_initial, closes, initial_end, and_go_on,
  initial_response, start_response, response_started, give_token, response_token, end_transaction,
  end_response, response_ended, end_attention, after_attention, attention_response,
}
use tedious.Connection.Run.{
  Arrival, Input, resume, arrival_step, if_set, machine_step, run_all, new_machine, connects,
  closes_connection, cancels, requests, connect_timer_fires, cancel_timer_fires,
  request_timer_fires, retry_timer_fires, socket_fails, socket_ends, socket_closes,
  message_finishes, payload_fails, token_comes, arrives, socket_found, socket_refused,
  lookup_refused, prelogin_arrives, tls_done, login_arrives, token_arrives, token_refusal,
  initial_arrives, response_arrives, response_ends, attention_arrives, fails, task_of,
  without_connect_timer,
}

-- Each number is below the one before it: the newest comes first, and none comes twice.
abbrev pub Descends : ℕ → List (ℕ × Answer) → Type 0
Descends n [] = Unit {0}
Descends n ((id, answer) ∷ xs) = (id < n) × Descends id xs

abbrev pub Below : ℕ → Option Pending → List (ℕ × Answer) → Type 0
Below n none xs = Descends n xs
Below n (some r) xs = (r.id < n) × Descends r.id xs

-- The numbers of the answered requests descend, and that of the request in progress is above them.
abbrev pub IsOrdered : Machine → Type 0
IsOrdered m = Below m.accepted m.request m.answers

weaken : (n n' : ℕ) (xs : List (ℕ × Answer)) → n ≤ n' → Descends n xs → Descends n' xs
weaken n n' [] h d = tt
weaken n n' ((id, answer) ∷ xs) h d = (omega arith, d.1)

pub forget : (n : ℕ) (o : Option Pending) (xs : List (ℕ × Answer)) → Below n o xs → Descends n xs
forget n none xs h = h
forget n (some r) xs h = weaken r.id n xs (omega arith) h.1

clean-IsOrdered : (type : CleanupType) (m : Machine) → IsOrdered m → IsOrdered (clean type m)
clean-IsOrdered type m h = cases m.request h
  where
    cases :
        (o : Option Pending)
        → Below m.accepted o m.answers
        → IsOrdered (clean type (record m { request = o }))
    cases none k = k
    cases (some r) k = k

cleanup_connection-IsOrdered :
    (type : CleanupType) (m : Machine) → IsOrdered m → IsOrdered (cleanup_connection type m)
unfolding cleanup_connection
cleanup_connection-IsOrdered type m h = cases m.closed
  where
    cases : (b : Bool) → IsOrdered (if b then m else clean type m)
    cases true = h
    cases false = clean-IsOrdered type m h

enter-IsOrdered : (s : State) (m : Machine) → IsOrdered m → IsOrdered (enter s m)
unfolding enter
enter-IsOrdered initialized m h = h
enter-IsOrdered connecting m h = h
enter-IsOrdered sent_prelogin m h = h
enter-IsOrdered rerouting m h = cleanup_connection-IsOrdered redirect m h
enter-IsOrdered transient_failure_retry m h =
    cleanup_connection-IsOrdered retry (record m { connection = count_retry m.connection }) h
enter-IsOrdered sent_tlssslnegotiation m h = h
enter-IsOrdered sent_login7_with_standard_login m h = h
enter-IsOrdered sent_login7_with_ntlm m h = h
enter-IsOrdered sent_login7_with_fedauth m h = h
enter-IsOrdered logged_in_sending_initial_sql m h = h
enter-IsOrdered logged_in m h = h
enter-IsOrdered sent_client_request m h = h
enter-IsOrdered sent_attention m h = h
enter-IsOrdered final m h = cleanup_connection-IsOrdered normal m h

pub transition_to-IsOrdered :
    (s : State) (m : Machine) → IsOrdered m → IsOrdered (transition_to s m)
unfolding transition_to
transition_to-IsOrdered s m h = cases (state_code m.state == state_code s)
  where
    cases : (b : Bool) → IsOrdered (if b then m else enter s (record (leave m) { state = s }))
    cases true = h
    cases false = enter-IsOrdered s (record (leave m) { state = s }) h

-- Where nothing was thrown.
abbrev pub OnSome : (Machine → Type 0) → Option Machine → Type 0
OnSome P none = Unit {0}
OnSome P (some m) = P m

pub and_go_on-OnSome :
    (P : Machine → Type 0) (o : Option Machine) (f : Machine → Option Machine)
    → OnSome P o
    → ((m : Machine) → P m → OnSome P (f m))
    → OnSome P (and_go_on o f)
and_go_on-OnSome P none f h k = tt
and_go_on-OnSome P (some m) f h k = k m h

-- Two machines with the same numbers.
pub record Same (o : Option Pending) (m m' : Machine) : Type 0 where
  pub accepted : m'.accepted ≡ m.accepted
  pub request : m'.request ≡ o
  pub answers : m'.answers ≡ m.answers

same : (m : Machine) → m.request ≡ none → Same none m m
same m e = record { accepted = refl; request = e; answers = refl }

-- Without a request a cleanup answers nothing.
cleanup_connection-Same :
    (type : CleanupType) (m : Machine) → m.request ≡ none → Same none m (cleanup_connection type m)
unfolding cleanup_connection
cleanup_connection-Same type m e = cases m.closed
  where
    cases : (b : Bool) → Same none m (if b then m else clean type m)
    cases true = same m e
    cases false = record { accepted = refl; request = refl; answers = rw e refl }

pub enter_final : (m : Machine) → m.request ≡ none → Same none m (transition_to final m)
unfolding transition_to enter
enter_final m e = cases (state_code m.state == state_code final)
  where
    cases :
        (b : Bool)
        → Same none m
            (if b then m else cleanup_connection normal (record (leave m) { state = final }))
    cases true = same m e
    cases false =
        let s = cleanup_connection-Same normal (record (leave m) { state = final }) e in
        record { accepted = s.accepted; request = s.request; answers = s.answers }

pub enter_logged_in : (m : Machine) → Same m.request m (transition_to logged_in m)
unfolding transition_to enter
enter_logged_in m = cases (state_code m.state == state_code logged_in)
  where
    cases : (b : Bool) → Same m.request m (if b then m else record (leave m) { state = logged_in })
    cases true = record { accepted = refl; request = refl; answers = refl }
    cases false = record { accepted = refl; request = refl; answers = refl }

-- The request is answered and dropped.
pub call_back-IsOrdered :
    (o : Option Pending) (a : Answer) (m m' : Machine)
    → Below m.accepted o m.answers
    → Same none m m'
    → OnSome IsOrdered (call_back o a m')
call_back-IsOrdered none a m m' h e = tt
call_back-IsOrdered (some r) a m m' h e = rw (e.request, e.accepted, e.answers) h

pub if_-IsOrdered :
    (b : Bool) (m n : Machine) → IsOrdered m → IsOrdered n → IsOrdered (if b then m else n)
if_-IsOrdered true m n h k = h
if_-IsOrdered false m n h k = k

pub if_-OnSome :
    (P : Machine → Type 0) (b : Bool) (o o' : Option Machine)
    → OnSome P o
    → OnSome P o'
    → OnSome P (if b then o else o')
if_-OnSome P true o o' h k = h
if_-OnSome P false o o' h k = k
