-- ===== src/Connection/Run/Settled/Moves.antt =====
-- The transitions of lib/connection.js between settled connections.
use tedious.Prelude.{
  ℕ, ◌+◌, ◌≡◌, refl, sym, ap, ◌∙◌, Bool, true, false, Option, none, some, ◌==◌, ==_iff, length,
  arith, if◌then◌else◌,
}
use tedious.Connection.{
  State, initialized, connecting, sent_prelogin, rerouting, transient_failure_retry,
  sent_tlssslnegotiation, sent_login7_with_standard_login, sent_login7_with_ntlm,
  sent_login7_with_fedauth, logged_in_sending_initial_sql, logged_in, sent_client_request,
  sent_attention, final, state_code, Pending, CleanupType, normal, redirect, retry, Machine, clean,
  cleanup_connection, count_retry, enter, leave, transition_to,
}
use tedious.Connection.Run.Settled.{count, busy_count, is_down, Settled, IsSettled}

pub false_not_true : false ≡ true → ⊥
false_not_true e = cc

pub down_not_busy : (n : ℕ) → is_down n ≡ true → busy_count n ≡ 0
down_not_busy n h = ground arith

clean-IsSettled :
    (type : CleanupType) (m : Machine)
    → is_down (state_code m.state) ≡ true
    → IsSettled m
    → IsSettled (clean type m)
clean-IsSettled type m d h = cases m.request h
  where
    cases :
        (o : Option Pending)
        → Settled m.state o m.closed m.request_timer m.accepted m.answers
        → IsSettled (clean type (record m { request = o }))
    cases none k = record {
      balance = k.balance;
      busy = sym (down_not_busy (state_code m.state) d);
      open_socket = λ e. d;
      timer = λ e. absurd (false_not_true e);
    }
    cases (some r) k = record {
      balance = omega (arith, k.balance);
      busy = sym (down_not_busy (state_code m.state) d);
      open_socket = λ e. d;
      timer = λ e. absurd (false_not_true e);
    }

cleanup_connection-IsSettled :
    (type : CleanupType) (m : Machine)
    → is_down (state_code m.state) ≡ true
    → IsSettled m
    → IsSettled (cleanup_connection type m)
unfolding cleanup_connection
cleanup_connection-IsSettled type m d h = cases m.closed
  where
    cases : (b : Bool) → IsSettled (if b then m else clean type m)
    cases true = h
    cases false = clean-IsSettled type m d h

-- `enter`, where the state is set already.
enter-IsSettled : (s : State) (m : Machine) → m.state ≡ s → IsSettled m → IsSettled (enter s m)
unfolding enter
enter-IsSettled initialized m e h = h
enter-IsSettled connecting m e h = h
enter-IsSettled sent_prelogin m e h = h
enter-IsSettled rerouting m e h =
    cleanup_connection-IsSettled redirect m (ap (λ s. is_down (state_code s)) e) h
enter-IsSettled transient_failure_retry m e h =
    cleanup_connection-IsSettled retry (record m { connection = count_retry m.connection })
      (ap (λ s. is_down (state_code s)) e) h
enter-IsSettled sent_tlssslnegotiation m e h = h
enter-IsSettled sent_login7_with_standard_login m e h = h
enter-IsSettled sent_login7_with_ntlm m e h = h
enter-IsSettled sent_login7_with_fedauth m e h = h
enter-IsSettled logged_in_sending_initial_sql m e h = h
enter-IsSettled logged_in m e h = h
enter-IsSettled sent_client_request m e h = h
enter-IsSettled sent_attention m e h = h
enter-IsSettled final m e h =
    cleanup_connection-IsSettled normal m (ap (λ s. is_down (state_code s)) e) h

-- The fields of a machine that is about to enter a state, but for the timer of the request.
pub record IsReady (s : State) (m : Machine) : Type 0 where
  pub balance : length m.answers + count m.request ≡ m.accepted
  pub busy : count m.request ≡ busy_count (state_code s)
  pub open_socket : m.closed ≡ true → is_down (state_code s) ≡ true
  pub timer : m.request_timer ≡ true → state_code m.state ≡ 11

pub left_timer :
    (n : ℕ) (b : Bool) → (b ≡ true → n ≡ 11) → (if n == 11 then false else b) ≡ true → ⊥
left_timer n b h e = ground (arith, h)

pub same_state : (n k : ℕ) → (n == k) ≡ true → n ≡ k
same_state n k e = (==_iff n k).0 e

pub transition_to-IsSettled :
    (s : State) (m : Machine) → IsReady s m → IsSettled (transition_to s m)
unfolding transition_to
transition_to-IsSettled s m h =
    cases (state_code m.state == state_code s) (same_state (state_code m.state) (state_code s))
  where
    cases :
        (b : Bool)
        → (b ≡ true → state_code m.state ≡ state_code s)
        → IsSettled (if b then m else enter s (record (leave m) { state = s }))
    cases true e = record {
      balance = h.balance;
      busy = h.busy ∙ ap busy_count (sym (e refl));
      open_socket = λ c. ap is_down (e refl) ∙ h.open_socket c;
      timer = h.timer;
    }
    cases false e =
        enter-IsSettled s (record (leave m) { state = s }) refl
          (record {
            balance = h.balance;
            busy = h.busy;
            open_socket = h.open_socket;
            timer = λ c. absurd (left_timer (state_code m.state) m.request_timer h.timer c);
          })

-- From any settled state to FINAL: the request in progress is answered there.
pub final-IsSettled : (m : Machine) → IsSettled m → IsSettled (transition_to final m)
unfolding transition_to enter cleanup_connection
final-IsSettled m h = cases (state_code m.state == state_code final) m.closed h.open_socket
  where
    n : Machine
    n = record (leave m) { state = final }

    left : n.request_timer ≡ true → state_code final ≡ 11
    left c = absurd (left_timer (state_code m.state) m.request_timer h.timer c)

    cleaned :
        (o : Option Pending)
        → length m.answers + count o ≡ m.accepted
        → IsSettled (clean normal (record n { request = o }))
    cleaned none k = record {
      balance = k;
      busy = refl;
      open_socket = λ c. refl;
      timer = λ c. absurd (false_not_true c);
    }
    cleaned (some r) k = record {
      balance = omega (arith, k);
      busy = refl;
      open_socket = λ c. refl;
      timer = λ c. absurd (false_not_true c);
    }

    cases :
        (b c : Bool)
        → (c ≡ true → is_down (state_code m.state) ≡ true)
        → IsSettled (if b then m else (if c then n else clean normal n))
    cases true c d = h
    cases false true d = record {
      balance = h.balance;
      busy = h.busy ∙ down_not_busy (state_code m.state) (d refl);
      open_socket = λ e. refl;
      timer = left;
    }
    cases false false d = cleaned m.request h.balance
