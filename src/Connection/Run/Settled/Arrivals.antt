-- ===== src/Connection/Run/Settled/Arrivals.antt =====
-- What arrives in the state of lib/connection.js that waits for it, on a settled connection.
use tedious.Prelude.{
  ℕ, ◌≡◌, refl, sym, ap, ◌∙◌, Bool, true, false, ◌&&◌, Option, none, some, List, [], ◌∷◌, All,
  if◌then◌else◌,
}
use tedious.Buffer.{Buffer, JsString}
use tedious.Prelogin.{Prelogin, extract_options}
use tedious.Token.{Token, Challenge}
use tedious.Handler.{
  Connection, AuthenticationType, sql_default, ntlm, active_directory_password,
  active_directory_access_token, active_directory_msi_vm, active_directory_msi_app_service,
  active_directory_service_principal_secret, active_directory_default, LoginError, Handled, handled,
  unexpected_token, connect_failed_event, encryption_required, login_refused, login_rejected,
  token_refused,
}
use tedious.Handler.Session.{initial_sql_handler}
use tedious.Handler.Login7.{Login7, login7_handler, with_login_error}
use tedious.Handler.Dispatch.{Succeeds, handle_all}
use tedious.Handler.Acknowledged.{IsLogin, HasAck, ack_after, login7_handler_ack}
use tedious.Connection.{
  State, sent_prelogin, rerouting, transient_failure_retry, sent_tlssslnegotiation,
  sent_login7_with_standard_login, logged_in_sending_initial_sql, logged_in, final, state_code,
  Encrypt, no_encryption, encryption, strict, Machine, transition_to, close, emits_event, starts,
  sends, token_task, ntlm_task, prelogin_message, login7_message, ntlm_message,
  fed_auth_token_message,
}
use tedious.Connection.Steps.{
  socket_connected, login_state, send_login, wants_encryption, fed_auth_due, negotiate,
  prelogin_received,
}
use tedious.Connection.Responses.{
  LoginKind, with_standard_login, with_ntlm, with_fedauth, is_transient, not_acknowledged,
  acknowledged_login, without_ntlmpacket, answer_challenge, is_present, ask_token, other_login,
  new_login7, after_login, login_response, token_received, token_failed, closes, after_initial,
  and_go_on, initial_response,
}
use tedious.Connection.Run.Settled.{busy_count, is_down, IsSettled, IsInitial}
use tedious.Connection.Run.Settled.Moves.{false_not_true, transition_to-IsSettled, final-IsSettled}
use tedious.Connection.Run.Settled.Calls.{if_-OkSettled, OkSettled, if_-IsSettled, IsReady-open}
use tedious.Connection.Run.Settled.Handled.{Takes, initial_sql_handler-Takes}

-- In a state without a request whose socket is open.
pub record IsOpen (m : Machine) : Type 0 where
  pub settled : IsSettled m
  pub idle : busy_count (state_code m.state) ≡ 0
  pub up : is_down (state_code m.state) ≡ false

pub IsOpen-at :
    (m : Machine) (s : State)
    → m.state ≡ s
    → busy_count (state_code s) ≡ 0
    → is_down (state_code s) ≡ false
    → IsSettled m
    → IsOpen m
IsOpen-at m s e i u h = record {
  settled = h;
  idle = ap (λ t. busy_count (state_code t)) e ∙ i;
  up = ap (λ t. is_down (state_code t)) e ∙ u;
}

to_open :
    (s : State) (m : Machine)
    → busy_count (state_code s) ≡ 0
    → IsOpen m
    → IsSettled (transition_to s m)
to_open s m e h = transition_to-IsSettled s m (IsReady-open s m (h.idle ∙ sym e) h.up h.settled)

pub socket_connected-IsSettled :
    (m : Machine)
    → busy_count (state_code m.state) ≡ 0
    → IsSettled m
    → IsSettled (socket_connected m)
unfolding socket_connected
socket_connected-IsSettled m e h =
    transition_to-IsSettled sent_prelogin (sends prelogin_message (record m { closed = false }))
      (record {
        balance = h.balance;
        busy = h.busy ∙ e;
        open_socket = λ c. absurd (false_not_true c);
        timer = h.timer;
      })

login_state-idle : (t : AuthenticationType) → busy_count (state_code (login_state t)) ≡ 0
login_state-idle sql_default = refl
login_state-idle ntlm = refl
login_state-idle active_directory_password = refl
login_state-idle active_directory_access_token = refl
login_state-idle active_directory_msi_vm = refl
login_state-idle active_directory_msi_app_service = refl
login_state-idle active_directory_service_principal_secret = refl
login_state-idle active_directory_default = refl

opened : (m n : Machine) → IsOpen m → IsSettled n → n.state ≡ m.state → IsOpen n
opened m n h k e = IsOpen-at n m.state e h.idle h.up k

pub send_login-IsSettled : (m : Machine) → IsOpen m → IsSettled (send_login m)
unfolding send_login
send_login-IsSettled m h =
    to_open (login_state m.connection.config.authentication_type)
      (sends login7_message (record m { routing_data = none }))
      (login_state-idle m.connection.config.authentication_type) (opened m _ h h.settled refl)

negotiate-IsSettled : (e : Encrypt) (m : Machine) → IsOpen m → IsSettled (negotiate e m)
unfolding close
negotiate-IsSettled no_encryption m h =
    final-IsSettled (emits_event (connect_failed_event encryption_required) m) h.settled
negotiate-IsSettled encryption m h = to_open sent_tlssslnegotiation m refl h
negotiate-IsSettled strict m h = send_login-IsSettled m h

none_not_some : {A : Type 0} {a : A} → none ≡ some a → ⊥
none_not_some e = cc

pub prelogin_received-OkSettled :
    (buf : Buffer) (p : Prelogin) (m : Machine)
    → extract_options buf ≡ some p
    → IsOpen m
    → OkSettled (prelogin_received buf m)
unfolding prelogin_received
prelogin_received-OkSettled buf p m e h = cases (extract_options buf) e
  where
    n : Prelogin → Machine
    n q = record m { fed_auth_required = fed_auth_due q m.fed_auth_required }

    cases :
        (o : Option Prelogin)
        → o ≡ some p
        → OkSettled (elim o [
          | none ↦ none
          | some q ↦
              some (
                if wants_encryption q then negotiate m.settings.encrypt (n q) else send_login (n q))
        ])
    cases none x = absurd (none_not_some x)
    cases (some q) x =
        if_-IsSettled (wants_encryption q) (negotiate m.settings.encrypt (n q)) (send_login (n q))
          (λ y. negotiate-IsSettled m.settings.encrypt (n q) (opened m (n q) h h.settled refl))
          λ y. send_login-IsSettled (n q) (opened m (n q) h h.settled refl)

not_acknowledged-IsSettled :
    (o : Option LoginError) (m : Machine) → IsOpen m → IsSettled (not_acknowledged o m)
not_acknowledged-IsSettled none m h =
    final-IsSettled (emits_event (connect_failed_event login_refused) m) h.settled
not_acknowledged-IsSettled (some e) m h =
    if_-IsSettled (is_transient e) (transition_to transient_failure_retry m)
      (transition_to final (emits_event (connect_failed_event (login_rejected e)) m))
      (λ x. to_open transient_failure_retry m refl h)
      λ x. final-IsSettled (emits_event (connect_failed_event (login_rejected e)) m) h.settled

acknowledged_login-IsSettled :
    (o : Option (JsString × ℕ)) (m : Machine) → IsOpen m → IsSettled (acknowledged_login o m)
acknowledged_login-IsSettled none m h = to_open logged_in_sending_initial_sql m refl h
acknowledged_login-IsSettled (some r) m h = to_open rerouting _ refl (opened m _ h h.settled refl)

answer_challenge-IsSettled : (m : Machine) → IsOpen m → IsSettled (answer_challenge m)
answer_challenge-IsSettled m h = cases m.connection.ntlmpacket
  where
    cases :
        (o : Option (Challenge × Buffer))
        → IsSettled (elim o [
          | none ↦ not_acknowledged m.connection.login_error m
          | some packet ↦
              starts ntlm_task
                (sends ntlm_message (record m { connection = without_ntlmpacket m.connection }))
        ])
    cases none = not_acknowledged-IsSettled m.connection.login_error m h
    cases (some packet) = h.settled

ask_token-OkSettled :
    (o : Option (Option JsString × Option JsString)) (m : Machine)
    → IsOpen m
    → OkSettled (ask_token o m)
ask_token-OkSettled none m h = not_acknowledged-IsSettled m.connection.login_error m h
ask_token-OkSettled (some (none, stsurl)) m h =
    not_acknowledged-IsSettled m.connection.login_error m h
ask_token-OkSettled (some (some spn, stsurl)) m h =
    if_-OkSettled (is_present stsurl && is_present (some spn))
      (if m.settings.resolves_url spn then some (starts token_task m) else none)
      (some (not_acknowledged m.connection.login_error m))
      (λ x.
        if_-OkSettled (m.settings.resolves_url spn) (some (starts token_task m)) none
          (λ y. h.settled) λ y. tt)
      λ x. not_acknowledged-IsSettled m.connection.login_error m h

other_login-OkSettled :
    (kind : LoginKind) (l : Login7) (m : Machine) → IsOpen m → OkSettled (other_login kind l m)
other_login-OkSettled with_standard_login l m h =
    not_acknowledged-IsSettled m.connection.login_error m h
other_login-OkSettled with_ntlm l m h = answer_challenge-IsSettled m h
other_login-OkSettled with_fedauth l m h = ask_token-OkSettled l.fed_auth_info_token m h

pub login_response-OkSettled :
    (kind : LoginKind) (tokens : List Token) (m : Machine)
    → All IsLogin tokens
    → IsOpen m
    → OkSettled (login_response kind tokens m)
unfolding login_response
login_response-OkSettled kind tokens m q h =
    cases (handle_all login7_handler tokens (new_login7 m.connection)) (
      login7_handler_ack tokens (false, m.connection.config.tds_version) (new_login7 m.connection) q
        (refl, refl))
  where
    cases :
        (r : Handled Login7)
        → Succeeds (HasAck (ack_after tokens (false, m.connection.config.tds_version))) r
        → OkSettled (after_login kind m r)
    cases unexpected_token s = absurd s
    cases (handled l) s =
        let n = record m { connection = l.connection } in
        if_-OkSettled l.login_ack_received (some (acknowledged_login l.routing_data n))
          (other_login kind l n)
          (λ x. acknowledged_login-IsSettled l.routing_data n (opened m n h h.settled refl))
          λ x. other_login-OkSettled kind l n (opened m n h h.settled refl)

pub token_received-IsSettled : (m : Machine) → IsOpen m → IsSettled (token_received m)
unfolding token_received
token_received-IsSettled m h =
    to_open sent_login7_with_standard_login (sends fed_auth_token_message m) refl
      (opened m _ h h.settled refl)

pub token_failed-IsSettled : (m : Machine) → IsSettled m → IsSettled (token_failed m)
unfolding token_failed
token_failed-IsSettled m h =
    final-IsSettled
      (emits_event (connect_failed_event (login_rejected token_refused))
        (record m { connection = with_login_error token_refused m.connection }))
      h

pub initial_response-OkSettled :
    (tokens : List Token) (m : Machine)
    → All IsInitial tokens
    → IsOpen m
    → OkSettled (initial_response tokens m)
unfolding initial_response
initial_response-OkSettled [] m q h = to_open logged_in m refl h
initial_response-OkSettled (token ∷ tokens) m q h =
    cases (closes token) (initial_sql_handler token m.connection) q.0.1
      (initial_sql_handler-Takes token m.connection q.0.0)
      λ c.
        initial_response-OkSettled tokens (record m { connection = c }) q.1
          (opened m _ h h.settled refl)
  where
    cases :
        (b : Bool) (r : Handled Connection)
        → b ≡ false
        → Takes r
        → ((c : Connection) → OkSettled (initial_response tokens (record m { connection = c })))
        → OkSettled (and_go_on (after_initial b m r) (initial_response tokens))
    cases b unexpected_token e t k = absurd t
    cases true (handled c) e t k = absurd (false_not_true (sym e))
    cases false (handled c) e t k = k c
