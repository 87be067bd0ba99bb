-- ===== src/Tests/Connections.antt =====
-- Short histories of a connection of lib/connection.js.
use tedious.Prelude.{ℕ, ◌≡◌, refl, true, false, Option, none, some, List, [], ◌∷◌, ◌++◌}
use tedious.Prelogin.{extract_loop, extract_options}
use tedious.Token.{done}
use tedious.Handler.Login7.{login7_handler, on_login_ack}
use tedious.Handler.Request.{unknown_error, request_handler, on_done}
use tedious.Handler.Dispatch.{handle_all}
use tedious.Buffer.{str_lt}
use tedious.Connection.{
  sent_attention, State, connecting, sent_prelogin, logged_in, Answer, completed,
  transient_failure_retry, Machine, Settings, encryption, enter, cleanup_connection, transition_to,
  close,
}
use tedious.Connection.Steps.{
  cancel_dropped, find_dropped, socket_close, retry_timeout, waits_for, remove_task, make_request,
  socket_connected, send_login, prelogin_received,
}
use tedious.Connection.Responses.{
  with_standard_login, login_response, initial_response, response_started, response_token,
  response_ended,
}
use tedious.Connection.Run.{
  cancels_dropped, Input, retry_timer_fires, connects, closes_connection, requests,
  message_finishes, token_comes, arrives, socket_found, prelogin_arrives, login_arrives,
  initial_arrives, response_arrives, response_ends, resume, machine_step, run_all, new_machine,
}
use tedious.Connection.Run.Answered.{request_history, Gives, IsAnswered, request_history-IsAnswered}
use tedious.Tests.Handlers.{idle, finished, response, acknowledgement}

abbrev settings : Settings
settings = record { encrypt = encryption; has_cancel_timeout = true; resolves_url = λ spn. true }

-- A login, then a request that is answered, and one that is not.
abbrev until_response : List Input
until_response =
    connects
    ∷ arrives socket_found
    ∷ arrives (prelogin_arrives (255 ∷ []))
    ∷ arrives (login_arrives with_standard_login acknowledgement)
    ∷ arrives (initial_arrives [])
    ∷ requests true false true true none
    ∷ message_finishes
    ∷ arrives response_arrives
    ∷ []

abbrev history : List Input
history =
    until_response
    ++ token_comes (done finished)
      ∷ arrives response_ends
      ∷ requests true false true false none
      ∷ []

abbrev or_new : Option Machine → Machine
or_new none = new_machine settings idle
or_new (some m) = m

abbrev busy_machine : Machine
unfolding run_all
busy_machine = or_new (run_all history (new_machine settings idle))

abbrev state_of : Option Machine → Option State
state_of none = none
state_of (some m) = some m.state

abbrev state_after : List Input → Option State
unfolding run_all
state_after inputs = state_of (run_all inputs (new_machine settings idle))

-- It has sent its login.
abbrev connected : Machine
unfolding run_all
connected = or_new (
    run_all (connects ∷ arrives socket_found ∷ arrives (prelogin_arrives (255 ∷ [])) ∷ [])
      (new_machine settings idle))

-- A connection that is closed while it waits for its socket goes on to connect.
closed_while_connecting :
    state_after (connects ∷ closes_connection ∷ arrives socket_found ∷ []) ≡ some sent_prelogin
unfolding run_all machine_step resume enter transition_to close cleanup_connection waits_for
    remove_task socket_connected
closed_while_connecting = refl

-- One that is closed before the end of a response throws at that end.
closed_in_response :
    state_after (until_response ++ closes_connection ∷ arrives response_ends ∷ []) ≡ none
unfolding run_all machine_step resume enter transition_to close cleanup_connection waits_for
    remove_task socket_connected prelogin_received extract_options extract_loop send_login
    login_response handle_all login7_handler on_login_ack initial_response make_request
    response_started response_token request_handler on_done response_ended
closed_in_response = refl

-- One that is closed while it waits to connect again does so.
closed_before_retry :
    state_of (
      machine_step retry_timer_fires
        (close (socket_close (transition_to transient_failure_retry connected))))
    ≡ some connecting
unfolding machine_step retry_timeout enter transition_to close cleanup_connection socket_close
    connected
closed_before_retry = refl

abbrev answers_of : Option Machine → List (ℕ × Answer)
answers_of none = []
answers_of (some m) = m.answers

-- A request whose object has an error from an earlier use is answered with it.
old_error :
    answers_of (
      run_all
        (requests true false true false (some unknown_error)
          ∷ arrives response_arrives
          ∷ arrives response_ends
          ∷ [])
        (transition_to logged_in connected))
    ≡ (0, completed (some unknown_error) 0 []) ∷ []
unfolding run_all machine_step resume enter transition_to waits_for remove_task make_request
    response_started response_ended connected str_lt
old_error = refl

abbrev logged_in_machine : Machine
logged_in_machine = record (new_machine settings idle) { state = logged_in }

request_history-IsAnswered_example :
    Gives
      (IsAnswered true true none response logged_in_machine)
      (run_all (request_history true true false none response) logged_in_machine)
request_history-IsAnswered_example =
    request_history-IsAnswered true true false none response logged_in_machine refl
      (tt, (tt, (tt, (tt, tt))))

-- A request that close() has let go within its response, and that is canceled then, moves the connection out of FINAL.
canceled_after_close :
    state_after (until_response ++ closes_connection ∷ cancels_dropped 0 ∷ []) ≡ some sent_attention
unfolding run_all machine_step resume enter transition_to close cleanup_connection waits_for
    remove_task socket_connected prelogin_received extract_options extract_loop send_login
    login_response handle_all login7_handler on_login_ack initial_response make_request
    response_started cancel_dropped find_dropped
canceled_after_close = refl
