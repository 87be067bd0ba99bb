-- ===== src/Connection/Run/Order/Arrivals.antt =====
-- The order of the call-backs in what arrives at a connection of lib/connection.js.
use tedious.Prelude.{
  ℕ, ◌≡◌, refl, Bool, true, false, ◌&&◌, Option, none, some, List, [], ◌∷◌, if◌then◌else◌,
}
use tedious.Buffer.{Buffer, JsString}
use tedious.Prelogin.{Prelogin, extract_options}
use tedious.Token.{Token, Challenge}
use tedious.Handler.{
  Connection, Handled, handled, unexpected_token, token_refused, LoginError, encryption_required,
  login_refused, login_rejected, connect_failed_event,
}
use tedious.Handler.Session.{initial_sql_handler}
use tedious.Handler.Login7.{Login7, login7_handler, with_login_error}
use tedious.Handler.Request.{Handler, request_handler, attention_handler}
use tedious.Handler.Dispatch.{handle_all}
use tedious.Connection.{
  rerouting, transient_failure_retry, sent_tlssslnegotiation, sent_login7_with_standard_login,
  logged_in_sending_initial_sql, logged_in, sent_attention, final, Pending, Encrypt, no_encryption,
  encryption, strict, login7_message, ntlm_message, ntlm_task, token_task, Answer, failed,
  completed, fed_auth_token_message, Machine, emits_event, starts, sends, transition_to, close,
}
use tedious.Connection.Steps.{
  fed_auth_due, login_state, call_back, send_login, negotiate, wants_encryption, prelogin_received,
}
use tedious.Connection.Responses.{
  LoginKind, receive_response, receives, after_response_token, after_detached, after_nobody,
  handler_of, nobody, takes_no_request, is_before_7_2, has_error, cancel_answer, is_transient,
  is_present, new_login7, without_ntlmpacket, with_standard_login, with_ntlm, with_fedauth,
  not_acknowledged, acknowledged_login, answer_challenge, ask_token, other_login, after_login,
  login_response, token_received, token_failed, after_initial, closes, initial_response,
  start_response, response_started, give_token, response_token, end_transaction, end_response,
  response_ended, end_attention, after_attention, attention_response,
}
use tedious.Connection.Run.Order.{
  Below, IsOrdered, transition_to-IsOrdered, OnSome, and_go_on-OnSome, enter_logged_in,
  call_back-IsOrdered, if_-IsOrdered, if_-OnSome,
}

pub send_login-IsOrdered : (m : Machine) → IsOrdered m → IsOrdered (send_login m)
unfolding send_login
send_login-IsOrdered m h =
    transition_to-IsOrdered (login_state m.connection.config.authentication_type)
      (sends login7_message (record m { routing_data = none })) h

negotiate-IsOrdered : (e : Encrypt) (m : Machine) → IsOrdered m → IsOrdered (negotiate e m)
unfolding close
negotiate-IsOrdered no_encryption m h =
    transition_to-IsOrdered final (emits_event (connect_failed_event encryption_required) m) h
negotiate-IsOrdered encryption m h = transition_to-IsOrdered sent_tlssslnegotiation m h
negotiate-IsOrdered strict m h = send_login-IsOrdered m h

pub prelogin_received-IsOrdered :
    (buf : Buffer) (m : Machine) → IsOrdered m → OnSome IsOrdered (prelogin_received buf m)
unfolding prelogin_received
prelogin_received-IsOrdered buf m h = cases (extract_options buf)
  where
    n : Prelogin → Machine
    n p = record m { fed_auth_required = fed_auth_due p m.fed_auth_required }

    cases :
        (o : Option Prelogin)
        → OnSome IsOrdered (elim o [
          | none ↦ none
          | some p ↦
              some (
                if wants_encryption p then negotiate m.settings.encrypt (n p) else send_login (n p))
        ])
    cases none = tt
    cases (some p) =
        if_-IsOrdered (wants_encryption p) (negotiate m.settings.encrypt (n p)) (send_login (n p))
          (negotiate-IsOrdered m.settings.encrypt (n p) h) (send_login-IsOrdered (n p) h)

not_acknowledged-IsOrdered :
    (o : Option LoginError) (m : Machine) → IsOrdered m → IsOrdered (not_acknowledged o m)
not_acknowledged-IsOrdered none m h =
    transition_to-IsOrdered final (emits_event (connect_failed_event login_refused) m) h
not_acknowledged-IsOrdered (some e) m h =
    if_-IsOrdered (is_transient e) (transition_to transient_failure_retry m)
      (transition_to final (emits_event (connect_failed_event (login_rejected e)) m))
      (transition_to-IsOrdered transient_failure_retry m h)
      (transition_to-IsOrdered final (emits_event (connect_failed_event (login_rejected e)) m) h)

acknowledged_login-IsOrdered :
    (o : Option (JsString × ℕ)) (m : Machine) → IsOrdered m → IsOrdered (acknowledged_login o m)
acknowledged_login-IsOrdered none m h = transition_to-IsOrdered logged_in_sending_initial_sql m h
acknowledged_login-IsOrdered (some r) m h =
    transition_to-IsOrdered rerouting (record m { routing_data = some r }) h

answer_challenge-IsOrdered : (m : Machine) → IsOrdered m → IsOrdered (answer_challenge m)
answer_challenge-IsOrdered m h = cases m.connection.ntlmpacket
  where
    cases :
        (o : Option (Challenge × Buffer))
        → IsOrdered (elim o [
          | none ↦ not_acknowledged m.connection.login_error m
          | some packet ↦
              starts ntlm_task
                (sends ntlm_message (record m { connection = without_ntlmpacket m.connection }))
        ])
    cases none = not_acknowledged-IsOrdered m.connection.login_error m h
    cases (some packet) = h

ask_token-IsOrdered :
    (o : Option (Option JsString × Option JsString)) (m : Machine)
    → IsOrdered m
    → OnSome IsOrdered (ask_token o m)
ask_token-IsOrdered none m h = not_acknowledged-IsOrdered m.connection.login_error m h
ask_token-IsOrdered (some (none, stsurl)) m h =
    not_acknowledged-IsOrdered m.connection.login_error m h
ask_token-IsOrdered (some (some spn, stsurl)) m h =
    if_-OnSome IsOrdered (is_present stsurl && is_present (some spn))
      (if m.settings.resolves_url spn then some (starts token_task m) else none)
      (some (not_acknowledged m.connection.login_error m))
      (if_-OnSome IsOrdered (m.settings.resolves_url spn) (some (starts token_task m)) none h tt)
      (not_acknowledged-IsOrdered m.connection.login_error m h)

other_login-IsOrdered :
    (kind : LoginKind) (l : Login7) (m : Machine)
    → IsOrdered m
    → OnSome IsOrdered (other_login kind l m)
other_login-IsOrdered with_standard_login l m h =
    not_acknowledged-IsOrdered m.connection.login_error m h
other_login-IsOrdered with_ntlm l m h = answer_challenge-IsOrdered m h
other_login-IsOrdered with_fedauth l m h = ask_token-IsOrdered l.fed_auth_info_token m h

pub login_response-IsOrdered :
    (kind : LoginKind) (tokens : List Token) (m : Machine)
    → IsOrdered m
    → OnSome IsOrdered (login_response kind tokens m)
unfolding login_response
login_response-IsOrdered kind tokens m h =
    cases (handle_all login7_handler tokens (new_login7 m.connection))
  where
    cases : (r : Handled Login7) → OnSome IsOrdered (after_login kind m r)
    cases unexpected_token = tt
    cases (handled l) =
        let n = record m { connection = l.connection } in
        if_-OnSome IsOrdered l.login_ack_received (some (acknowledged_login l.routing_data n))
          (other_login kind l n) (acknowledged_login-IsOrdered l.routing_data n h)
          (other_login-IsOrdered kind l n h)

pub token_received-IsOrdered : (m : Machine) → IsOrdered m → IsOrdered (token_received m)
unfolding token_received
token_received-IsOrdered m h =
    transition_to-IsOrdered sent_login7_with_standard_login (sends fed_auth_token_message m) h

pub token_failed-IsOrdered : (m : Machine) → IsOrdered m → IsOrdered (token_failed m)
unfolding token_failed
token_failed-IsOrdered m h =
    transition_to-IsOrdered final
      (emits_event (connect_failed_event (login_rejected token_refused))
        (record m { connection = with_login_error token_refused m.connection }))
      h

after_initial-IsOrdered :
    (closing : Bool) (m : Machine) (r : Handled Connection)
    → IsOrdered m
    → OnSome IsOrdered (after_initial closing m r)
unfolding close
after_initial-IsOrdered closing m unexpected_token h = tt
after_initial-IsOrdered closing m (handled c) h =
    let n = record m { connection = c } in
    if_-IsOrdered closing (transition_to final n) n (transition_to-IsOrdered final n h) h

pub initial_response-IsOrdered :
    (tokens : List Token) (m : Machine) → IsOrdered m → OnSome IsOrdered (initial_response tokens m)
unfolding initial_response
initial_response-IsOrdered [] m h = transition_to-IsOrdered logged_in m h
initial_response-IsOrdered (token ∷ tokens) m h =
    and_go_on-OnSome IsOrdered
      (after_initial (closes token) m (initial_sql_handler token m.connection))
      (initial_response tokens)
      (after_initial-IsOrdered (closes token) m (initial_sql_handler token m.connection) h)
      (initial_response-IsOrdered tokens)

pub response_started-IsOrdered : (m : Machine) → IsOrdered m → IsOrdered (response_started m)
unfolding response_started
response_started-IsOrdered m h = cases m.request h
  where
    n : Machine
    n = record m { request_timer = false }

    cases : (o : Option Pending) → Below m.accepted o m.answers → IsOrdered (start_response o n)
    cases none k = k
    cases (some r) k =
        if_-IsOrdered (r.canceled && m.cancel_timer)
          (transition_to sent_attention
            (record n { detached = none; request = some (record r { errors = [] }) }))
          (receive_response (some (receives r)) n)
          (transition_to-IsOrdered sent_attention
            (record n { detached = none; request = some (record r { errors = [] }) }) k)
          k

pub response_token-IsOrdered :
    (token : Token) (m : Machine) → IsOrdered m → OnSome IsOrdered (response_token token m)
unfolding response_token
response_token-IsOrdered token m h = cases m.request m.detached refl
  where
    held :
        (r : Pending) (c : Handled Handler)
        → m.request ≡ some r
        → OnSome IsOrdered (after_response_token m r c)
    held r unexpected_token e = tt
    held r (handled x) e = below m.request e h
      where
        below :
            (o : Option Pending)
            → o ≡ some r
            → Below m.accepted o m.answers
            → Below m.accepted (some r) m.answers
        below o y k = rw y at k

    loose : (r : Pending) (c : Handled Handler) → OnSome IsOrdered (after_detached m r c)
    loose r unexpected_token = tt
    loose r (handled x) = h

    alone : (c : Handled Handler) → OnSome IsOrdered (after_nobody m c)
    alone unexpected_token = tt
    alone (handled x) = h

    cases : (o d : Option Pending) → m.request ≡ o → OnSome IsOrdered (give_token o d token m)
    cases (some r) d e = held r (request_handler token (handler_of m.connection r)) e
    cases none (some r) e = loose r (request_handler token (handler_of m.connection r))
    cases none none e =
        if_-OnSome IsOrdered (takes_no_request token)
          (after_nobody m (request_handler token (handler_of m.connection nobody))) none
          (alone (request_handler token (handler_of m.connection nobody))) tt

-- The end of a response, whether or not it ends a transaction.
answered-IsOrdered :
    (b : Bool) (r : Pending) (a : Answer) (m : Machine)
    → Below m.accepted (some r) m.answers
    → OnSome IsOrdered (
        call_back
          (some r)
          a
          (end_transaction b (record (transition_to logged_in m) { request = none })))
answered-IsOrdered true r a m k = let s = enter_logged_in m in rw (s.accepted, s.answers) k
answered-IsOrdered false r a m k = let s = enter_logged_in m in rw (s.accepted, s.answers) k

pub response_ended-IsOrdered : (m : Machine) → IsOrdered m → OnSome IsOrdered (response_ended m)
unfolding response_ended
response_ended-IsOrdered m h = cases m.request h
  where
    cases :
        (o : Option Pending) → Below m.accepted o m.answers → OnSome IsOrdered (end_response o m)
    cases none k = tt
    cases (some r) k =
        answered-IsOrdered (is_before_7_2 m.connection && (has_error r && m.is_sql_batch)) r
          (completed r.error r.row_count r.rows) m k

end_attention-IsOrdered :
    (o : Option Pending) (m : Machine)
    → Below m.accepted o m.answers
    → OnSome IsOrdered (end_attention o m)
end_attention-IsOrdered none m h = tt
end_attention-IsOrdered (some r) m h =
    let n = record m { cancel_timer = false; request = none } in
    let s = enter_logged_in n in
    call_back-IsOrdered (some r) (failed (cancel_answer r.error)) m (transition_to logged_in n) h
      (record { accepted = s.accepted; request = s.request; answers = s.answers })

pub attention_response-IsOrdered :
    (tokens : List Token) (m : Machine)
    → IsOrdered m
    → OnSome IsOrdered (attention_response tokens m)
unfolding attention_response
attention_response-IsOrdered tokens m h = cases (handle_all attention_handler tokens false)
  where
    cases : (r : Handled Bool) → OnSome IsOrdered (after_attention m r)
    cases unexpected_token = tt
    cases (handled false) = h
    cases (handled true) = end_attention-IsOrdered m.request m h
