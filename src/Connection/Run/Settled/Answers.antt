-- ===== src/Connection/Run/Settled/Answers.antt =====
-- The responses to requests of lib/connection.js, on a settled connection.
use tedious.Prelude.{
  ℕ, suc, ◌+◌, ◌≡◌, refl, sym, ap, ◌∙◌, Bool, true, false, ◌&&◌, none, some, List, [], ◌==◌, All,
  length, arith, if◌then◌else◌,
}
use tedious.Token.{Token}
use tedious.Handler.{Handled, handled, unexpected_token}
use tedious.Handler.Request.{Handler, request_handler, attention_handler}
use tedious.Handler.Dispatch.{handle_all, IsResponse}
use tedious.Connection.{
  State, logged_in, sent_client_request, sent_attention, state_code, Pending, Answer, failed,
  completed, Machine, leave, transition_to, enter,
}
use tedious.Connection.Steps.{call_back}
use tedious.Connection.Responses.{
  receives, receive_response, start_response, response_started, handler_of, after_response_token,
  give_token, response_token, is_before_7_2, has_error, end_transaction, end_response,
  response_ended, cancel_answer, end_attention, after_attention, attention_response,
}
use tedious.Connection.Run.Settled.{count, busy_count, is_down, IsSettled, IsDone}
use tedious.Connection.Run.Settled.Moves.{
  false_not_true, left_timer, same_state, IsReady, transition_to-IsSettled,
}
use tedious.Connection.Run.Settled.Calls.{OkSettled, if_-IsSettled}
use tedious.Connection.Run.Settled.Handled.{Takes, request_handler-Takes, attention_handler-Takes}

-- With a request in progress, at a state that is known.
pub record IsBusy (r : Pending) (s : State) (m : Machine) : Type 0 where
  pub settled : IsSettled m
  pub held : m.request ≡ some r
  pub here : m.state ≡ s
  pub one : busy_count (state_code s) ≡ 1
  pub up : is_down (state_code s) ≡ false

balanced :
    {r : Pending} {s : State} (m : Machine) → IsBusy r s m → length m.answers + 1 ≡ m.accepted
balanced m h = omega (arith, h.settled.balance, ap count h.held)

never_closed : {r : Pending} {s : State} (m : Machine) → IsBusy r s m → m.closed ≡ true → ⊥
never_closed m h c =
    false_not_true
      (sym h.up ∙ ap (λ t. is_down (state_code t)) (sym h.here) ∙ h.settled.open_socket c)

pub response_started-IsSettled :
    (r : Pending) (m : Machine) → IsBusy r sent_client_request m → IsSettled (response_started m)
unfolding response_started
response_started-IsSettled r m h = rw (ap (λ o. start_response o n) h.held) started
  where
    n : Machine
    n = record m { request_timer = false }

    with_request : (q : Pending) → IsSettled (record n { request = some q })
    with_request q = record {
      balance = balanced m h;
      busy = ap (λ t. busy_count (state_code t)) (sym h.here);
      open_socket = h.settled.open_socket;
      timer = λ c. absurd (false_not_true c);
    }

    ready : (q : Pending) → IsReady sent_attention (record n { detached = none; request = some q })
    ready q = record {
      balance = balanced m h;
      busy = refl;
      open_socket = λ c. absurd (never_closed m h c);
      timer = λ c. absurd (false_not_true c);
    }

    started : IsSettled (start_response (some r) n)
    started =
        if_-IsSettled (r.canceled && m.cancel_timer)
          (transition_to sent_attention
            (record n { detached = none; request = some (record r { errors = [] }) }))
          (receive_response (some (receives r)) n)
          (λ x.
            transition_to-IsSettled sent_attention
              (record n { detached = none; request = some (record r { errors = [] }) })
              (ready (record r { errors = [] })))
          λ x. with_request (receives r)

pub response_token-OkSettled :
    (token : Token) (r : Pending) (m : Machine)
    → m.request ≡ some r
    → IsResponse token
    → IsSettled m
    → OkSettled (response_token token m)
unfolding response_token
response_token-OkSettled token r m e q h = rw (ap (λ o. give_token o m.detached token m) e) (
    cases (request_handler token (handler_of m.connection r))
      (request_handler-Takes token (handler_of m.connection r) q))
  where
    cases : (c : Handled Handler) → Takes c → OkSettled (after_response_token m r c)
    cases unexpected_token t = absurd t
    cases (handled x) t = record {
      balance = ap (λ o. length m.answers + count o) (sym e) ∙ h.balance;
      busy = ap count (sym e) ∙ h.busy;
      open_socket = h.open_socket;
      timer = h.timer;
    }

-- The request is answered, and the connection is in LOGGED_IN.
logged_in_again :
    (r : Pending) (s : State) (a : Answer) (m n : Machine)
    → IsBusy r s m
    → n.state ≡ m.state
    → n.closed ≡ m.closed
    → n.request_timer ≡ m.request_timer
    → n.accepted ≡ m.accepted
    → n.answers ≡ m.answers
    → OkSettled (call_back (some r) a (record (transition_to logged_in n) { request = none }))
unfolding transition_to enter
logged_in_again r s a m n h st cl ti ac an =
    cases (state_code n.state == state_code logged_in)
      (same_state (state_code n.state) (state_code logged_in))
  where
    one : busy_count (state_code n.state) ≡ 1
    one = ap (λ t. busy_count (state_code t)) (st ∙ h.here) ∙ h.one

    cases :
        (b : Bool)
        → (b ≡ true → state_code n.state ≡ 10)
        → OkSettled (
            call_back
              (some r)
              a
              (record (if b then n else record (leave n) { state = logged_in }) { request = none }))
    cases true d = absurd (omega (arith, sym one ∙ ap busy_count (d refl)))
    cases false d = record {
      balance = omega (arith, balanced m h, ac, ap (length {A = ℕ × Answer}) an);
      busy = refl;
      open_socket = λ c. absurd (never_closed m h (sym cl ∙ c));
      timer = λ c. absurd (
          left_timer (state_code n.state) n.request_timer
            (λ x. ap state_code st ∙ h.settled.timer (sym ti ∙ x)) c);
    }

pub response_ended-OkSettled :
    (r : Pending) (m : Machine) → IsBusy r sent_client_request m → OkSettled (response_ended m)
unfolding response_ended
response_ended-OkSettled r m h =
    rw (ap (λ o. end_response o m) h.held)
      (ended (is_before_7_2 m.connection && (has_error r && m.is_sql_batch)))
  where
    answer : Answer
    answer = completed r.error r.row_count r.rows

    ended :
        (b : Bool)
        → OkSettled (
            call_back
              (some r)
              answer
              (end_transaction b (record (transition_to logged_in m) { request = none })))
    ended true = logged_in_again r sent_client_request answer m m h refl refl refl refl refl
    ended false = logged_in_again r sent_client_request answer m m h refl refl refl refl refl

kept_request : (n : Machine) → (transition_to logged_in n).request ≡ n.request
unfolding transition_to enter
kept_request n = cases (state_code n.state == state_code logged_in)
  where
    cases :
        (b : Bool) → (if b then n else record (leave n) { state = logged_in }).request ≡ n.request
    cases true = refl
    cases false = refl

-- The same, where the request is dropped before the transition.
dropped :
    (r : Pending) (a : Answer) (n : Machine)
    → n.request ≡ none
    → OkSettled (call_back (some r) a (record (transition_to logged_in n) { request = none }))
    → OkSettled (call_back (some r) a (transition_to logged_in n))
dropped r a n e h =
    let k = kept_request n ∙ e in
    record {
      balance = ap (λ o. suc (length (transition_to logged_in n).answers) + count o) k ∙ h.balance;
      busy = ap count k ∙ h.busy;
      open_socket = h.open_socket;
      timer = h.timer;
    }

pub attention_response-OkSettled :
    (tokens : List Token) (r : Pending) (m : Machine)
    → All IsDone tokens
    → IsBusy r sent_attention m
    → OkSettled (attention_response tokens m)
unfolding attention_response
attention_response-OkSettled tokens r m q h =
    cases (handle_all attention_handler tokens false) (attention_handler-Takes tokens false q)
  where
    n : Machine
    n = record m { cancel_timer = false; request = none }

    a : Answer
    a = failed (cancel_answer r.error)

    cases : (c : Handled Bool) → Takes c → OkSettled (after_attention m c)
    cases unexpected_token t = absurd t
    cases (handled false) t = h.settled
    cases (handled true) t =
        rw (ap (λ o. end_attention o m) h.held)
          (dropped r a n refl (logged_in_again r sent_attention a m n h refl refl refl refl refl))
