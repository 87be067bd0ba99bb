-- ===== src/Connection/Run/Answered.antt =====
-- lib/connection.js: a request that is made in LOGGED_IN and whose response arrives in full.
use tedious.Prelude.{
  ℕ, suc, ◌≡◌, refl, sym, subst, Bool, true, false, ◌&&◌, Option, none, some, List, [], ◌∷◌, ◌++◌,
  map, append-nil, append_assoc, All, inl, if◌then◌else◌,
}
use tedious.Token.{Token, MessageData, RowColumns}
use tedious.Handler.{Connection, Handled, handled, unexpected_token}
use tedious.Handler.Request.{Handler, RequestError, request_handler}
use tedious.Handler.Dispatch.{Succeeds, IsResponse}
use tedious.Handler.Requests.{
  add_count, Collected, FitsError, count_of, row_of, error_message_of, total_count, all_rows,
  all_errors,
}
use tedious.Handler.Collecting.{request_handler-Collected}
use tedious.Connection.{
  sent_client_request, logged_in, Pending, completed, Machine, transition_to, enter, end_task,
  request_message,
}
use tedious.Connection.Steps.{waits_for, remove_task, new_request, make_request}
use tedious.Connection.Responses.{
  handler_of, pending_of, after_response_token, response_token, response_started, response_ended,
  end_transaction, has_error, is_before_7_2, and_go_on,
}
use tedious.Connection.Run.{
  Input, requests, message_finishes, token_comes, arrives, response_arrives, response_ends, resume,
  machine_step, run_all,
}

-- The history of a request: it is sent, and its response arrives, token by token.
abbrev pub request_history : Bool → Bool → Bool → Option RequestError → List Token → List Input
request_history is_request has_timeout is_sql_batch initial tokens =
    requests is_request false has_timeout is_sql_batch initial
    ∷ message_finishes
    ∷ arrives response_arrives
    ∷ (map token_comes tokens ++ arrives response_ends ∷ [])

abbrev receiving : Machine → Pending → Machine
receiving n r = record n { state = sent_client_request; request = some r }

-- Behind tokens: the connection and the request that the rest of the history goes on with.
record Received (b collects : Bool) (initial : Option RequestError) (count : ℕ)
    (rows : List RowColumns) (errors : List MessageData) (n : Machine) (r : Pending)
    (rest : List Input) (o : Option Machine) : Type 0 where
  connection : Connection
  pending : Pending
  goes_on : o ≡ run_all rest (receiving (record n { connection = connection }) pending)
  number : pending.id ≡ r.id
  collected : Collected b collects initial count rows errors (handler_of connection pending)

tokens-Received :
    (b collects : Bool) (initial : Option RequestError) (tokens : List Token) (rest : List Input)
    (count : ℕ) (rows : List RowColumns) (errors : List MessageData) (n : Machine) (r : Pending)
    → All IsResponse tokens
    → Collected b collects initial count rows errors (handler_of n.connection r)
    → Received b collects initial
        (total_count count tokens)
        (rows ++ all_rows tokens)
        (errors ++ all_errors tokens)
        n
        r
        rest
        (run_all (map token_comes tokens ++ rest) (receiving n r))
unfolding run_all machine_step response_token
tokens-Received b collects initial [] rest count rows errors n r q c = record {
  connection = n.connection;
  pending = r;
  goes_on = refl;
  number = refl;
  collected = rw (append-nil rows, append-nil errors) c;
}
tokens-Received b collects initial (token ∷ tokens) rest count rows errors n r q c =
    rw
      (
        sym (append_assoc rows (row_of token) (all_rows tokens)),
        sym (append_assoc errors (error_message_of token) (all_errors tokens)),
      )
      (cases (request_handler token (handler_of n.connection r))
        (request_handler-Collected b collects initial count rows errors (handler_of n.connection r)
          c token q.0)
        λ h k.
          tokens-Received b collects initial tokens rest _ (rows ++ row_of token)
            (errors ++ error_message_of token) (record n { connection = h.connection })
            (pending_of h r) q.1 k)
  where
    Rest : Machine → Pending → Option Machine → Type 0
    Rest n' r' o =
        Received b collects initial (total_count (add_count count (count_of token)) tokens)
          ((rows ++ row_of token) ++ all_rows tokens)
          ((errors ++ error_message_of token) ++ all_errors tokens) n' r' rest o

    Now : Handler → Type 0
    Now h =
        Collected b collects initial (add_count count (count_of token)) (rows ++ row_of token)
          (errors ++ error_message_of token) h

    cases :
        (x : Handled Handler)
        → Succeeds Now x
        → ((h : Handler)
            → Now (handler_of h.connection (pending_of h r))
            → Rest
                (record n { connection = h.connection })
                (pending_of h r)
                (run_all
                  (map token_comes tokens ++ rest)
                  (receiving (record n { connection = h.connection }) (pending_of h r))))
        → Rest n r (
            and_go_on
              (after_response_token (receiving n r) r x)
              (run_all (map token_comes tokens ++ rest)))
    cases unexpected_token s k = absurd s
    cases (handled h) s k =
        let z = k h (record {
          live = c.live;
          kind = c.kind;
          config = s.config;
          row_count = s.row_count;
          all_rows = s.all_rows;
          all_errors = s.all_errors;
          error = s.error;
        }) in
        record {
          connection = z.connection;
          pending = z.pending;
          goes_on = z.goes_on;
          number = z.number;
          collected = z.collected;
        }

-- Nothing was thrown, and it holds of the connection.
abbrev pub Gives : (Machine → Type 0) → Option Machine → Type 0
Gives P none = ⊥
Gives P (some m) = P m

-- The request that was made of `m` is answered, with what the tokens bring. `initial`: the error that its object had.
pub record IsAnswered (is_request collects : Bool) (initial : Option RequestError)
    (tokens : List Token) (m m' : Machine) : Type 0 where
  pub state : m'.state ≡ logged_in
  pub request : m'.request ≡ none
  pub accepted : m'.accepted ≡ suc m.accepted
  pub error : Option RequestError
  pub fits : FitsError error initial is_request (all_errors tokens)
  pub answers :
      m'.answers
      ≡ (
        m.accepted,
        completed error (total_count 0 tokens) (if collects then all_rows tokens else []),
      )
        ∷ m.answers

module _ (b s : Bool) (initial : Option RequestError) (tokens : List Token) (m : Machine) where
  collects : Bool
  collects = m.connection.config.row_collection_on_request_completion

  -- The connection and the request when the response begins.
  begun : Machine
  begun = record m {
    is_sql_batch = s;
    accepted = suc m.accepted;
    request_timer = false;
    detached = none;
    tasks = end_task ∷ m.tasks;
    messages = request_message m.accepted ∷ m.messages;
  }

  first : Pending
  first = record (new_request m.accepted b initial) { finished = true; receiving = true }

  first-Collected : Collected b collects initial 0 [] [] (handler_of m.connection first)
  unfolding collects first
  first-Collected = record {
    live = refl;
    kind = refl;
    config = refl;
    row_count = refl;
    all_rows = nothing m.connection.config.row_collection_on_request_completion;
    all_errors = refl;
    error = inl refl;
  }
    where
      nothing : (c : Bool) → ◌≡◌ {A = List RowColumns} [] (if c then [] else [])
      nothing true = refl
      nothing false = refl

  last-IsAnswered :
      (c : Connection) (r : Pending)
      → r.id ≡ m.accepted
      → Collected b collects initial
          (total_count 0 tokens)
          (all_rows tokens)
          (all_errors tokens)
          (handler_of c r)
      → Gives
          (IsAnswered b collects initial tokens m)
          (run_all (arrives response_ends ∷ []) (receiving (record begun { connection = c }) r))
  unfolding begun run_all machine_step resume waits_for remove_task response_ended transition_to
      enter
  last-IsAnswered c r e k = cases (is_before_7_2 c && (has_error r && s))
    where
      n : Machine
      n = record begun { connection = c; state = logged_in; request = none; tasks = m.tasks }

      same_answer :
          (r.id, completed r.error r.row_count r.rows) ∷ m.answers
          ≡ (
            m.accepted,
            completed r.error (total_count 0 tokens) (if collects then all_rows tokens else []),
          )
            ∷ m.answers
      same_answer = rw (e, k.row_count, k.all_rows) refl

      cases :
          (x : Bool)
          → IsAnswered b collects initial tokens m (record (end_transaction x n) {
            answers = (r.id, completed r.error r.row_count r.rows) ∷ (end_transaction x n).answers;
          })
      cases true = record {
        state = refl;
        request = refl;
        accepted = refl;
        error = r.error;
        fits = k.error;
        answers = same_answer;
      }
      cases false = record {
        state = refl;
        request = refl;
        accepted = refl;
        error = r.error;
        fits = k.error;
        answers = same_answer;
      }

  history-IsAnswered :
      (t : Bool)
      → All IsResponse tokens
      → Gives
          (IsAnswered b collects initial tokens m)
          (run_all (request_history b t s initial tokens) (record m { state = logged_in }))
  unfolding begun first run_all machine_step resume waits_for remove_task make_request
      response_started transition_to enter
  history-IsAnswered t q =
      let z =
        tokens-Received b collects initial tokens (arrives response_ends ∷ []) 0 [] [] begun first q
          first-Collected in
      subst (Gives (IsAnswered b collects initial tokens m)) (sym z.goes_on)
        (last-IsAnswered z.connection z.pending z.number z.collected)

-- A request that is made in LOGGED_IN, sent in full and not canceled, and whose response arrives token by token and ends
-- (of tokens that RequestTokenHandler has a method for, and with nothing else in between): nothing throws, the connection
-- is in LOGGED_IN again, without a request, and the call-back of the request was called once, with the sum of the row
-- counts of its DONE tokens, as a double that is rounded at each step, with its rows in their order if they are collected and with none else, and with the error of
-- its ERROR tokens: the only one, for a Request all of them, for a bulk load the last, or without an ERROR token the
-- error that the request object had before the request was made, or the unknown error where it had none.
pub request_history-IsAnswered :
    (is_request has_timeout is_sql_batch : Bool) (initial : Option RequestError)
    (tokens : List Token) (m : Machine)
    → m.state ≡ logged_in
    → All IsResponse tokens
    → Gives
        (IsAnswered is_request m.connection.config.row_collection_on_request_completion initial
          tokens m)
        (run_all (request_history is_request has_timeout is_sql_batch initial tokens) m)
unfolding collects
request_history-IsAnswered b t s initial tokens m e q =
    subst
      (λ x.
        Gives
          (IsAnswered b m.connection.config.row_collection_on_request_completion initial tokens m)
          (run_all (request_history b t s initial tokens) (record m { state = x })))
      (sym e) (history-IsAnswered b s initial tokens m t q)
