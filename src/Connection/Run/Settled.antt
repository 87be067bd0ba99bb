-- ===== src/Connection/Run/Settled.antt =====
-- lib/connection.js: what holds of a connection as long as every message comes in the state that waits for it.
pub mod Moves
pub mod Calls
pub mod Requests
pub mod Handled
pub mod Arrivals
pub mod Answers
pub mod Timely
pub mod Final
use tedious.Prelude.{
  ℕ, suc, ◌+◌, ◌≤◌, ◌<◌, ◌≡◌, refl, sym, ap, ◌∙◌, Bool, true, false, not, ◌&&◌, ◌||◌, Option, none,
  some, List, [], ◌∷◌, ◌==◌, ==_iff, Bool-cases, inl, inr, All, length, arith, if◌then◌else◌,
}
use tedious.Prelogin.{Prelogin, extract_options}
use tedious.Token.{Token, done}
use tedious.Handler.Dispatch.{IsResponse}
use tedious.Handler.Acknowledged.{IsLogin}
use tedious.Connection.{
  State, connecting, sent_prelogin, transient_failure_retry, sent_tlssslnegotiation,
  sent_login7_with_standard_login, sent_login7_with_ntlm, sent_login7_with_fedauth,
  logged_in_sending_initial_sql, sent_client_request, sent_attention, final, state_code, Task,
  socket_task, prelogin_task, tls_task, standard_task, ntlm_task, fedauth_task, token_task,
  initial_task, response_task, end_task, attention_task, Pending, Answer, Machine,
}
use tedious.Connection.Responses.{closes}
use tedious.Connection.Steps.{find_dropped}
use tedious.Connection.Run.{
  cancels_dropped, Arrival, prelogin_arrives, login_arrives, initial_arrives, attention_arrives,
  Input, socket_refused, lookup_refused, token_refusal, fails, retry_timer_fires, token_comes,
  arrives, task_of, machine_step,
}

abbrev pub count : Option Pending → ℕ
count none = 0
count (some r) = 1

-- In SENT_CLIENT_REQUEST and SENT_ATTENTION there is a request.
abbrev pub busy_count : ℕ → ℕ
busy_count n = if (n == 11) || (n == 12) then 1 else 0

-- CONNECTING, REROUTING, TRANSIENT_FAILURE_RETRY and FINAL.
abbrev pub is_down : ℕ → Bool
is_down n = (n == 1) || ((n == 3) || ((n == 4) || (n == 13)))

pub record Settled (state : State) (request : Option Pending) (closed request_timer : Bool)
    (accepted : ℕ) (answers : List (ℕ × Answer)) : Type 0 where
  -- Each request that was taken is answered, but for the one in progress.
  pub balance : length answers + count request ≡ accepted
  pub busy : count request ≡ busy_count (state_code state)
  pub open_socket : closed ≡ true → is_down (state_code state) ≡ true
  pub timer : request_timer ≡ true → state_code state ≡ 11

abbrev pub IsSettled : Machine → Type 0
IsSettled m = Settled m.state m.request m.closed m.request_timer m.accepted m.answers

-- The state that a task belongs to.
abbrev pub task_state : Task → State
task_state socket_task = connecting
task_state prelogin_task = sent_prelogin
task_state tls_task = sent_tlssslnegotiation
task_state standard_task = sent_login7_with_standard_login
task_state ntlm_task = sent_login7_with_ntlm
task_state fedauth_task = sent_login7_with_fedauth
task_state token_task = sent_login7_with_fedauth
task_state initial_task = logged_in_sending_initial_sql
task_state response_task = sent_client_request
task_state end_task = sent_client_request
task_state attention_task = sent_attention

abbrev pub IsDone : Token → Type 0
IsDone (done d) = Unit {0}
IsDone token = ⊥

abbrev pub IsInitial : Token → Type 0
IsInitial token = IsResponse token × (closes token ≡ false)

-- A message is one that the state expects.
abbrev pub IsProper : Arrival → Type 0
IsProper (prelogin_arrives buf) = (p : Prelogin) × (extract_options buf ≡ some p)
IsProper (login_arrives kind tokens) = All IsLogin tokens
IsProper (initial_arrives tokens) = All IsInitial tokens
IsProper (attention_arrives tokens) = All IsDone tokens
IsProper a = Unit {0}

-- A request whose response was not being taken when it was dropped.
abbrev pub IsQuiet : Option Pending → Type 0
IsQuiet none = Unit {0}
IsQuiet (some r) = r.receiving ≡ false

-- What comes, comes in the state that waits for it. Errors may come at any time, and so may a cancel but for that of
-- a request whose response was being taken when it was dropped.
abbrev pub IsTimely : Input → Machine → Type 0
IsTimely (cancels_dropped id) m = IsQuiet (find_dropped id m.dropped)
IsTimely retry_timer_fires m = m.state ≡ transient_failure_retry
IsTimely (token_comes token) m = (busy_count (state_code m.state) ≡ 1) × IsResponse token
IsTimely (arrives (fails task e)) m = Unit {0}
IsTimely (arrives (socket_refused e)) m = Unit {0}
IsTimely (arrives lookup_refused) m = Unit {0}
IsTimely (arrives token_refusal) m = Unit {0}
IsTimely (arrives a) m = (m.state ≡ task_state (task_of a)) × IsProper a
IsTimely i m = Unit {0}

-- The machines that a history of such inputs leads to.
pub data Reach (m : Machine) : Machine → Type 0 where
  start : Reach m m
  later :
      {n n' : Machine} (i : Input)
      → Reach m n
      → IsTimely i n
      → machine_step i n ≡ some n'
      → Reach m n'
