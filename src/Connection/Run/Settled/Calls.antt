-- ===== src/Connection/Run/Settled/Calls.antt =====
-- The calls of the user, the timers and the socket of lib/connection.js, on a settled connection.
use tedious.Prelude.{
  ℕ, suc, ◌+◌, ◌≡◌, refl, sym, ap, ◌∙◌, Bool, true, false, ◌||◌, Option, none, some, ◌==◌, length,
  arith, if◌then◌else◌,
}
use tedious.Handler.{SocketError, hang_up, connect_timed_out, connect_failed_event, no_such_event}
use tedious.Handler.Request.{socket_error_of}
use tedious.Connection.{
  State, initialized, connecting, rerouting, transient_failure_retry, sent_client_request,
  sent_attention, final, state_code, Pending, Answer, failed, normal, Machine, clean, leave,
  transition_to, enter, cleanup_connection, close, emits_event, socket_task,
}
use tedious.Connection.Steps.{
  call_back, without_request, dispatch_socket_error, socket_error, socket_end, socket_close,
  remove_task, ends_on_timeout, connect_timeout,
}
use tedious.Connection.Run.Settled.{count, busy_count, is_down, IsSettled}
use tedious.Connection.Run.Settled.Moves.{
  false_not_true, down_not_busy, left_timer, same_state, IsReady, transition_to-IsSettled,
  final-IsSettled,
}

-- The connection is settled, where nothing was thrown.
abbrev pub OkSettled : Option Machine → Type 0
OkSettled none = Unit {0}
OkSettled (some m) = IsSettled m

pub if_-OkSettled :
    (b : Bool) (o o' : Option Machine)
    → (b ≡ true → OkSettled o)
    → (b ≡ false → OkSettled o')
    → OkSettled (if b then o else o')
if_-OkSettled true o o' h k = h refl
if_-OkSettled false o o' h k = k refl

pub if_-IsSettled :
    (b : Bool) (m n : Machine)
    → (b ≡ true → IsSettled m)
    → (b ≡ false → IsSettled n)
    → IsSettled (if b then m else n)
if_-IsSettled true m n h k = h refl
if_-IsSettled false m n h k = k refl

-- Between states without a request: to one that is down, or from one that is not.
pub IsReady-down :
    (s : State) (m : Machine)
    → busy_count (state_code m.state) ≡ 0
    → is_down (state_code s) ≡ true
    → IsSettled m
    → IsReady s m
IsReady-down s m e d h = record {
  balance = h.balance;
  busy = h.busy ∙ e ∙ sym (down_not_busy (state_code s) d);
  open_socket = λ c. d;
  timer = h.timer;
}

pub IsReady-open :
    (s : State) (m : Machine)
    → busy_count (state_code m.state) ≡ busy_count (state_code s)
    → is_down (state_code m.state) ≡ false
    → IsSettled m
    → IsReady s m
IsReady-open s m e d h = record {
  balance = h.balance;
  busy = h.busy ∙ e;
  open_socket = λ c. absurd (false_not_true (sym d ∙ h.open_socket c));
  timer = h.timer;
}

pub request_of : (o : Option Pending) → count o ≡ 1 → (r : Pending) × (o ≡ some r)
request_of none e = absurd (omega (arith, e))
request_of (some r) e = (r, refl)

-- The request of a lost connection is answered behind the transition.
lost-OkSettled :
    (r : Pending) (a : Answer) (m : Machine)
    → m.request ≡ some r
    → IsSettled m
    → OkSettled (call_back (some r) a (transition_to final (without_request m)))
unfolding transition_to enter cleanup_connection
lost-OkSettled r a m e h =
    cases (state_code m.state == state_code final) m.closed
      (same_state (state_code m.state) (state_code final))
  where
    one_more : suc (length m.answers) + 0 ≡ m.accepted
    one_more = omega (arith, h.balance, ap count e)

    n : Machine
    n = record (leave (without_request m)) { state = final }

    left : n.request_timer ≡ true → state_code final ≡ 11
    left c = absurd (left_timer (state_code m.state) m.request_timer h.timer c)

    cases :
        (b c : Bool)
        → (b ≡ true → state_code m.state ≡ state_code final)
        → OkSettled (
            call_back
              (some r)
              a
              (if b then without_request m else (if c then n else clean normal n)))
    cases true c d = record {
      balance = one_more;
      busy = ap busy_count (sym (d refl));
      open_socket = h.open_socket;
      timer = h.timer;
    }
    cases false true d = record {
      balance = one_more;
      busy = refl;
      open_socket = λ c. refl;
      timer = left;
    }
    cases false false d = record {
      balance = one_more;
      busy = refl;
      open_socket = λ c. refl;
      timer = λ c. absurd (false_not_true c);
    }

busy_here : (n : ℕ) → ((n == 11) || (n == 12)) ≡ true → busy_count n ≡ 1
busy_here n e = ap (λ b. if b then 1 else 0) e

pub dispatch_socket_error-OkSettled :
    (e : SocketError) (m : Machine) → IsSettled m → OkSettled (dispatch_socket_error e m)
unfolding dispatch_socket_error close
dispatch_socket_error-OkSettled e m h =
    if_-OkSettled (state_code m.state == state_code initialized)
      (some (transition_to final (emits_event no_such_event m))) _
      (λ x. final-IsSettled (emits_event no_such_event m) h)
      λ x.
        if_-OkSettled
          (state_code m.state == state_code sent_client_request
            || state_code m.state == state_code sent_attention)
          (call_back m.request (failed (socket_error_of e))
            (transition_to final (without_request m)))
          _ (λ y. answered y)
          λ y.
            if_-OkSettled (state_code m.state == state_code final) (some m)
              (some (transition_to final m)) (λ z. h) λ z. final-IsSettled m h
  where
    answered :
        (state_code m.state == state_code sent_client_request
            || state_code m.state == state_code sent_attention)
          ≡ true
        → OkSettled (
            call_back m.request
              (failed (socket_error_of e))
              (transition_to final (without_request m)))
    answered y =
        let (r, x) = request_of m.request (h.busy ∙ busy_here (state_code m.state) y) in
        rw
          (ap
            (λ o.
              call_back o (failed (socket_error_of e)) (transition_to final (without_request m)))
            x)
          (lost-OkSettled r (failed (socket_error_of e)) m x h)

pub socket_error-OkSettled :
    (e : SocketError) (m : Machine) → IsSettled m → OkSettled (socket_error e m)
unfolding socket_error
socket_error-OkSettled e m h = dispatch_socket_error-OkSettled e (emits_event _ m) h

pub socket_end-OkSettled : (m : Machine) → IsSettled m → OkSettled (socket_end m)
unfolding socket_end
socket_end-OkSettled m h =
    if_-OkSettled (state_code m.state == state_code final) (some m) (socket_error hang_up m)
      (λ x. h) λ x. socket_error-OkSettled hang_up m h

idle_at : (n k : ℕ) → (n == k) ≡ true → busy_count k ≡ 0 → busy_count n ≡ 0
idle_at n k e h = ap busy_count (same_state n k e) ∙ h

pub socket_close-IsSettled : (m : Machine) → IsSettled m → IsSettled (socket_close m)
unfolding socket_close
socket_close-IsSettled m h =
    if_-IsSettled (state_code m.state == state_code rerouting) (transition_to connecting m) _
      (λ x.
        transition_to-IsSettled connecting m
          (IsReady-down connecting m (idle_at (state_code m.state) 3 x refl) refl h))
      λ x.
        if_-IsSettled (state_code m.state == state_code transient_failure_retry)
          (record m { retry_timer = true }) (transition_to final m) (λ y. h)
          λ y. final-IsSettled m h

pub connect-IsSettled :
    (m : Machine)
    → IsSettled m
    → IsSettled
        (if state_code m.state == state_code initialized then transition_to connecting m else m)
connect-IsSettled m h =
    if_-IsSettled (state_code m.state == state_code initialized) (transition_to connecting m) m
      (λ x.
        transition_to-IsSettled connecting m
          (IsReady-down connecting m (idle_at (state_code m.state) 0 x refl) refl h))
      λ x. h

pub connect_timeout-IsSettled : (m : Machine) → IsSettled m → IsSettled (connect_timeout m)
unfolding connect_timeout close
connect_timeout-IsSettled m h =
    if_-IsSettled (ends_on_timeout m.state) (transition_to final n) _ (λ x. final-IsSettled n h)
      λ x.
        if_-IsSettled (state_code m.state == state_code final) n
          (transition_to final (emits_event no_such_event n)) (λ y. h)
          λ y. final-IsSettled (emits_event no_such_event n) h
  where
    n : Machine
    n =
        emits_event (connect_failed_event connect_timed_out)
          (record m { connect_timer = false; tasks = remove_task socket_task m.tasks })
