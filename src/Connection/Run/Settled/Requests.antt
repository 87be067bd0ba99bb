-- ===== src/Connection/Run/Settled/Requests.antt =====
-- The requests of lib/connection.js, their cancelling and their timer, on a settled connection.
use tedious.Prelude.{
  map, ℕ, suc, ◌+◌, ◌≡◌, refl, sym, ap, ◌∙◌, Bool, true, false, not, Option, none, some, ◌∷◌, ◌==◌,
  length, arith, if◌then◌else◌,
}
use tedious.Handler.Request.{RequestError, timeout_error, invalid_state_error, canceled_error}
use tedious.Connection.{
  logged_in, sent_client_request, sent_attention, state_code, Pending, Answer, Machine, leave,
  transition_to, enter, sends, starts, end_task, response_task, attention_message, request_message,
}
use tedious.Connection.Steps.{
  find_dropped, mark_canceled, cancel_listening, cancel_dropped, remove_task, canceled_pending,
  send_attention, stop_receiving, cancel_pending, cancel_request, set_error, time_out,
  request_timeout, on_request, new_request, make_request,
}
use tedious.Connection.Run.Settled.{IsQuiet, count, busy_count, is_down, IsSettled}
use tedious.Connection.Run.Settled.Moves.{false_not_true, same_state, transition_to-IsSettled}
use tedious.Connection.Run.Settled.Calls.{OkSettled, if_-IsSettled, IsReady-open, request_of}

busy_not_down : (n : ℕ) → busy_count n ≡ 1 → is_down n ≡ false
busy_not_down n h = ground arith

pub cancel_pending-IsSettled :
    (r : Pending) (m : Machine) → m.request ≡ some r → IsSettled m → IsSettled (cancel_pending r m)
unfolding cancel_pending
cancel_pending-IsSettled r m e h =
    if_-IsSettled r.canceled m _ (λ x. h) λ x. stopped (send_attention r c) (sent r.finished)
  where
    one : busy_count (state_code m.state) ≡ 1
    one = sym h.busy ∙ ap count e

    c : Machine
    c = record m { request = some (canceled_pending r) }

    held : IsSettled c
    held = record {
      balance = ap (λ o. length m.answers + count o) (sym e) ∙ h.balance;
      busy = sym one;
      open_socket = h.open_socket;
      timer = h.timer;
    }

    Kept : Machine → Type 0
    Kept n = IsSettled n × (busy_count (state_code n.state) ≡ 1)

    sent :
        (b : Bool)
        → Kept (
            if b
            then sends attention_message (record c { cancel_timer = c.settings.has_cancel_timeout })
            else c)
    sent true = (held, one)
    sent false = (held, one)

    stopped : (n : Machine) → Kept n → IsSettled (stop_receiving r n)
    stopped n k =
        let n' = record n { tasks = remove_task end_task n.tasks } in
        if_-IsSettled r.receiving (transition_to sent_attention n') n
          (λ x.
            transition_to-IsSettled sent_attention n'
              (IsReady-open sent_attention n' k.1 (busy_not_down (state_code n.state) k.1) k.0))
          λ x. k.0

pub cancel_dropped-IsSettled :
    (id : ℕ) (m : Machine)
    → IsQuiet (find_dropped id m.dropped)
    → IsSettled m
    → IsSettled (cancel_dropped id m)
unfolding cancel_dropped
cancel_dropped-IsSettled id m q h = cases (find_dropped id m.dropped) q
  where
    cases :
        (o : Option Pending)
        → IsQuiet o
        → IsSettled (elim o [ none ↦ m | some r ↦ cancel_listening r m ])
    cases none e = h
    cases (some r) e =
        if_-IsSettled r.canceled m _ (λ x. h)
          λ x.
            if_-IsSettled r.receiving _ (send_attention r n)
              (λ y. absurd (false_not_true (sym e ∙ y))) λ y. sent r.finished
      where
        n : Machine
        n = record m {
          dropped = map (mark_canceled r.id) m.dropped;
          detached = elim m.detached [ none ↦ none | some d ↦ some (mark_canceled r.id d) ];
        }

        sent :
            (b : Bool)
            → IsSettled (
                if b
                then sends attention_message
                    (record n { cancel_timer = n.settings.has_cancel_timeout })
                else n)
        sent true = h
        sent false = h

pub cancel_request-IsSettled : (m : Machine) → IsSettled m → IsSettled (cancel_request m)
unfolding cancel_request
cancel_request-IsSettled m h = cases m.request refl
  where
    cases :
        (o : Option Pending)
        → m.request ≡ o
        → IsSettled (elim o [ none ↦ m | some r ↦ cancel_pending r m ])
    cases none e = h
    cases (some r) e = cancel_pending-IsSettled r m e h

count-set_error : (e : RequestError) (o : Option Pending) → count (set_error e o) ≡ count o
count-set_error e none = refl
count-set_error e (some r) = refl

-- Another request object in the place of the one in progress.
replaced :
    (m : Machine) (o : Option Pending)
    → count o ≡ count m.request
    → IsSettled m
    → IsSettled (record m { request = o })
replaced m o e h = record {
  balance = ap (λ n. length m.answers + n) e ∙ h.balance;
  busy = e ∙ h.busy;
  open_socket = h.open_socket;
  timer = h.timer;
}

pub request_timeout-OkSettled :
    (m : Machine) → m.request_timer ≡ true → IsSettled m → OkSettled (request_timeout m)
unfolding request_timeout
request_timeout-OkSettled m e h =
    let (r, x) = request_of m.request (h.busy ∙ ap busy_count (h.timer e)) in
    let c = cancel_pending r n in
    rw (ap (λ o. time_out o n) x) (
      replaced c (set_error timeout_error c.request) (count-set_error timeout_error c.request)
        (cancel_pending-IsSettled r n x stopped))
  where
    n : Machine
    n = record m { request_timer = false }

    stopped : IsSettled n
    stopped = record {
      balance = h.balance;
      busy = h.busy;
      open_socket = h.open_socket;
      timer = λ c. absurd (false_not_true c);
    }

pub on_request-IsSettled :
    (f : Pending → Pending) (m : Machine) → IsSettled m → IsSettled (on_request f m)
on_request-IsSettled f m h = replaced m _ (same_count m.request) h
  where
    same_count :
        (o : Option Pending) → count (elim o [ none ↦ none | some r ↦ some (f r) ]) ≡ count o
    same_count none = refl
    same_count (some r) = refl

-- The new request is the only one.
taken :
    (m n : Machine)
    → state_code m.state ≡ 10
    → n.state ≡ m.state
    → n.accepted ≡ suc m.accepted
    → n.answers ≡ m.answers
    → n.closed ≡ m.closed
    → count n.request ≡ 1
    → IsSettled m
    → IsSettled (transition_to sent_client_request n)
unfolding transition_to enter
taken m n e s a x c one h =
    cases (state_code n.state == state_code sent_client_request)
      (same_state (state_code n.state) (state_code sent_client_request))
  where
    ten : state_code n.state ≡ 10
    ten = ap state_code s ∙ e

    cases :
        (b : Bool)
        → (b ≡ true → state_code n.state ≡ 11)
        → IsSettled (
            if b
            then n
            else starts response_task (record (leave n) { state = sent_client_request }))
    cases true d = absurd (omega (arith, ten, d refl))
    cases false d = record {
      balance =
          omega (arith, ap (length {A = ℕ × Answer}) x, a, one, h.balance, h.busy, ap busy_count e);
      busy = one;
      open_socket = λ y. absurd (false_not_true (sym (ap is_down e) ∙ h.open_socket (sym c ∙ y)));
      timer = λ y. refl;
    }

pub make_request-IsSettled :
    (is_request canceled has_timeout is_sql_batch : Bool) (error : Option RequestError)
    (m : Machine)
    → IsSettled m
    → IsSettled (make_request is_request canceled has_timeout is_sql_batch error m)
unfolding make_request
make_request-IsSettled is_request canceled has_timeout is_sql_batch error m h =
    cases (state_code m.state == state_code logged_in)
      (same_state (state_code m.state) (state_code logged_in))
  where
    n : Machine
    n = sends (request_message m.accepted) (record m {
      is_sql_batch = is_sql_batch;
      request = some (new_request m.accepted is_request error);
      accepted = suc m.accepted;
      request_timer = has_timeout;
    })

    cases :
        (b : Bool)
        → (b ≡ true → state_code m.state ≡ 10)
        → IsSettled (
            if not b
            then record m { refusals = invalid_state_error ∷ m.refusals }
            else if canceled
            then record m { refusals = canceled_error ∷ m.refusals }
            else transition_to sent_client_request n)
    cases true e =
        if_-IsSettled canceled (record m { refusals = canceled_error ∷ m.refusals })
          (transition_to sent_client_request n) (λ x. h)
          λ x. taken m n (e refl) refl refl refl refl refl h
    cases false e = h
