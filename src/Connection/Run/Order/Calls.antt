-- ===== src/Connection/Run/Order/Calls.antt =====
-- The order of the call-backs in the calls, the timers and the socket of lib/connection.js.
use tedious.Prelude.{
  ℕ, map, suc, ◌≡◌, refl, Bool, true, false, not, ◌||◌, Option, none, some, ◌∷◌, ◌==◌, arith,
  if◌then◌else◌,
}
use tedious.Handler.{SocketError, hang_up, connect_timed_out, connect_failed_event, no_such_event}
use tedious.Handler.Request.{
  socket_error_of, RequestError, timeout_error, canceled_error, invalid_state_error,
}
use tedious.Connection.{
  initialized, connecting, rerouting, transient_failure_retry, logged_in, sent_client_request,
  sent_attention, final, state_code, Pending, request_message, failed, attention_message,
  socket_task, end_task, Machine, emits_event, sends, transition_to, close,
}
use tedious.Connection.Steps.{
  find_dropped, mark_canceled, cancel_listening, cancel_dropped, set_error, call_back,
  without_request, dispatch_socket_error, socket_error, socket_end, socket_close, remove_task,
  ends_on_timeout, connect_timeout, canceled_pending, send_attention, stop_receiving,
  cancel_pending, cancel_request, time_out, request_timeout, on_request, new_request, make_request,
}
use tedious.Connection.Run.Order.{
  Below, IsOrdered, forget, transition_to-IsOrdered, OnSome, enter_final, call_back-IsOrdered,
  if_-IsOrdered, if_-OnSome,
}

pub dispatch_socket_error-IsOrdered :
    (e : SocketError) (m : Machine) → IsOrdered m → OnSome IsOrdered (dispatch_socket_error e m)
unfolding dispatch_socket_error close
dispatch_socket_error-IsOrdered e m h =
    cases (state_code m.state == state_code initialized)
      (state_code m.state == state_code sent_client_request
        || state_code m.state == state_code sent_attention)
      (state_code m.state == state_code final)
  where
    cases :
        (a b c : Bool)
        → OnSome IsOrdered (
            if a
            then some (transition_to final (emits_event no_such_event m))
            else if b
            then call_back m.request
                (failed (socket_error_of e))
                (transition_to final (without_request m))
            else if c
            then some m
            else some (transition_to final m))
    cases true b c = transition_to-IsOrdered final (emits_event no_such_event m) h
    cases false true c =
        call_back-IsOrdered m.request (failed (socket_error_of e)) m
          (transition_to final (without_request m)) h
          (let s = enter_final (without_request m) refl in
            record { accepted = s.accepted; request = s.request; answers = s.answers })
    cases false false true = h
    cases false false false = transition_to-IsOrdered final m h

pub socket_error-IsOrdered :
    (e : SocketError) (m : Machine) → IsOrdered m → OnSome IsOrdered (socket_error e m)
unfolding socket_error
socket_error-IsOrdered e m h = dispatch_socket_error-IsOrdered e (emits_event _ m) h

pub socket_end-IsOrdered : (m : Machine) → IsOrdered m → OnSome IsOrdered (socket_end m)
unfolding socket_end
socket_end-IsOrdered m h =
    if_-OnSome IsOrdered (state_code m.state == state_code final) (some m) (socket_error hang_up m)
      h (socket_error-IsOrdered hang_up m h)

pub socket_close-IsOrdered : (m : Machine) → IsOrdered m → IsOrdered (socket_close m)
unfolding socket_close
socket_close-IsOrdered m h =
    if_-IsOrdered (state_code m.state == state_code rerouting) (transition_to connecting m) _
      (transition_to-IsOrdered connecting m h)
      (if_-IsOrdered (state_code m.state == state_code transient_failure_retry)
        (record m { retry_timer = true }) (transition_to final m) h
        (transition_to-IsOrdered final m h))

pub connect_timeout-IsOrdered : (m : Machine) → IsOrdered m → IsOrdered (connect_timeout m)
unfolding connect_timeout close
connect_timeout-IsOrdered m h =
    if_-IsOrdered (ends_on_timeout m.state) (transition_to final n) _
      (transition_to-IsOrdered final n h)
      (if_-IsOrdered (state_code m.state == state_code final) n
        (transition_to final (emits_event no_such_event n)) h
        (transition_to-IsOrdered final (emits_event no_such_event n) h))
  where
    n : Machine
    n =
        emits_event (connect_failed_event connect_timed_out)
          (record m { connect_timer = false; tasks = remove_task socket_task m.tasks })

cancel_pending-IsOrdered :
    (r : Pending) (m : Machine) → m.request ≡ some r → IsOrdered m → IsOrdered (cancel_pending r m)
unfolding cancel_pending
cancel_pending-IsOrdered r m e h =
    if_-IsOrdered r.canceled m _ h (stopped (send_attention r c) (sent r.finished))
  where
    c : Machine
    c = record m { request = some (canceled_pending r) }

    held : IsOrdered c
    held = below m.request e h
      where
        below : (o : Option Pending) → o ≡ some r → Below m.accepted o m.answers → IsOrdered c
        below o x k = rw x at k

    sent :
        (b : Bool)
        → IsOrdered (
            if b
            then sends attention_message (record c { cancel_timer = c.settings.has_cancel_timeout })
            else c)
    sent true = held
    sent false = held

    stopped : (n : Machine) → IsOrdered n → IsOrdered (stop_receiving r n)
    stopped n k =
        if_-IsOrdered r.receiving _ n
          (transition_to-IsOrdered sent_attention
            (record n { tasks = remove_task end_task n.tasks }) k)
          k

pub cancel_dropped-IsOrdered :
    (id : ℕ) (m : Machine) → IsOrdered m → IsOrdered (cancel_dropped id m)
unfolding cancel_dropped
cancel_dropped-IsOrdered id m h = cases (find_dropped id m.dropped)
  where
    cases : (o : Option Pending) → IsOrdered (elim o [ none ↦ m | some r ↦ cancel_listening r m ])
    cases none = h
    cases (some r) = if_-IsOrdered r.canceled m _ h (stopped (send_attention r n) (sent r.finished))
      where
        n : Machine
        n = record m {
          dropped = map (mark_canceled r.id) m.dropped;
          detached = elim m.detached [ none ↦ none | some d ↦ some (mark_canceled r.id d) ];
        }

        sent :
            (b : Bool)
            → IsOrdered (
                if b
                then sends attention_message
                    (record n { cancel_timer = n.settings.has_cancel_timeout })
                else n)
        sent true = h
        sent false = h

        stopped : (k : Machine) → IsOrdered k → IsOrdered (stop_receiving r k)
        stopped k x =
            if_-IsOrdered r.receiving _ k
              (transition_to-IsOrdered sent_attention
                (record k { tasks = remove_task end_task k.tasks }) x)
              x

pub cancel_request-IsOrdered : (m : Machine) → IsOrdered m → IsOrdered (cancel_request m)
unfolding cancel_request
cancel_request-IsOrdered m h = cases m.request refl
  where
    cases :
        (o : Option Pending)
        → m.request ≡ o
        → IsOrdered (elim o [ none ↦ m | some r ↦ cancel_pending r m ])
    cases none e = h
    cases (some r) e = cancel_pending-IsOrdered r m e h

set_error-Below :
    (o : Option Pending) (m : Machine) (e : RequestError)
    → Below m.accepted o m.answers
    → Below m.accepted (set_error e o) m.answers
set_error-Below none m e h = h
set_error-Below (some r) m e h = h

pub request_timeout-IsOrdered : (m : Machine) → IsOrdered m → OnSome IsOrdered (request_timeout m)
unfolding request_timeout
request_timeout-IsOrdered m h = cases m.request refl
  where
    n : Machine
    n = record m { request_timer = false }

    cases : (o : Option Pending) → m.request ≡ o → OnSome IsOrdered (time_out o n)
    cases none e = tt
    cases (some r) e =
        let c = cancel_pending r n in
        set_error-Below c.request c timeout_error (cancel_pending-IsOrdered r n e h)

pub on_request-IsOrdered :
    (f : Pending → Pending) (m : Machine)
    → ((r : Pending) → (f r).id ≡ r.id)
    → IsOrdered m
    → IsOrdered (on_request f m)
on_request-IsOrdered f m keeps h = cases m.request h
  where
    cases :
        (o : Option Pending)
        → Below m.accepted o m.answers
        → Below m.accepted (elim o [ none ↦ none | some r ↦ some (f r) ]) m.answers
    cases none k = k
    cases (some r) k = rw (keeps r) k

pub make_request-IsOrdered :
    (is_request canceled has_timeout is_sql_batch : Bool) (error : Option RequestError)
    (m : Machine)
    → IsOrdered m
    → IsOrdered (make_request is_request canceled has_timeout is_sql_batch error m)
unfolding make_request
make_request-IsOrdered is_request canceled has_timeout is_sql_batch error m h =
    if_-IsOrdered (not (state_code m.state == state_code logged_in))
      (record m { refusals = invalid_state_error ∷ m.refusals }) _ h
      (if_-IsOrdered canceled (record m { refusals = canceled_error ∷ m.refusals })
        (transition_to sent_client_request n) h
        (transition_to-IsOrdered sent_client_request n
          (omega arith, forget m.accepted m.request m.answers h)))
  where
    n : Machine
    n = sends (request_message m.accepted) (record m {
      is_sql_batch = is_sql_batch;
      request = some (new_request m.accepted is_request error);
      accepted = suc m.accepted;
      request_timer = has_timeout;
    })
