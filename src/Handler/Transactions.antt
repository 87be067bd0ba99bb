-- ===== src/Handler/Transactions.antt =====
-- The transaction descriptors that the handlers of lib/token/handler.js keep on the connection.
use tedious.Prelude.{
  ◌≡◌, refl, sym, ap, ◌∙◌, Bool, true, false, Option, none, some, List, [], ◌∷◌, ◌++◌, All, ltb,
  ltb-true, length, length-append, arith, if◌then◌else◌,
}
use tedious.Buffer.{Buffer}
use tedious.Token.{
  Token, EnvChangeData, col_metadata, done, done_in_proc, done_proc, info_message, error_message,
  login_ack, order, return_status, feature_ext_ack, env_change, row, nbc_row, return_value, sspi,
  fed_auth_info, database, language, charset, database_mirroring_partner, packet_size,
  begin_transaction, commit_transaction, rollback_transaction, reset_connection, collation_change,
  routing,
}
use tedious.Handler.{
  Connection, Handled, emit, error_event, order_event, return_value_event, handled,
  unexpected_token, last_descriptor, current_transaction_descriptor,
}
use tedious.Handler.Session.{
  on_begin_transaction, on_commit_transaction, on_rollback_transaction, on_env_change,
  initial_sql_handler, set_length_1,
}
use tedious.Handler.Request.{
  Handler, request_handler, on_handled, unless_canceled, emits, push_error, with_connection,
  with_return_status, on_error_message, on_col_metadata, on_row, on_done_proc, on_done_in_proc,
  on_done,
}
use tedious.Handler.Dispatch.{
  Succeeds, and_handle-Succeeds, handle_all, IsResponse, IsSessionChange,
}

-- No transaction: eight zero bytes.
abbrev pub no_transaction : Buffer
no_transaction = 0 ∷ 0 ∷ 0 ∷ 0 ∷ 0 ∷ 0 ∷ 0 ∷ 0 ∷ []

-- The first descriptor is that of no transaction, and there are others exactly within a transaction.
abbrev pub AreConsistent : List (Option Buffer) → Bool → Type 0
AreConsistent [] in_transaction = ⊥
AreConsistent (d ∷ ds) in_transaction =
    (d ≡ some no_transaction) × (in_transaction ≡ ltb 0 (length ds))

-- What the server has told: the descriptor of the transaction that was begun last, unless it has ended.
abbrev pub transaction_after : Token → Option Buffer → Option Buffer
transaction_after (env_change (begin_transaction new old)) t = some new
transaction_after (env_change (commit_transaction new old)) t = none
transaction_after (env_change (rollback_transaction new old)) t = none
transaction_after token t = t

unfoldable pub transaction_after_all : List Token → Option Buffer → Option Buffer
transaction_after_all [] t = t
transaction_after_all (token ∷ tokens) t = transaction_after_all tokens (transaction_after token t)

abbrev pub descriptor_of : Option Buffer → Buffer
descriptor_of none = no_transaction
descriptor_of (some d) = d

abbrev pub is_some : Option Buffer → Bool
is_some none = false
is_some (some d) = true

-- The fields of a connection stand for that.
pub record Represents (t : Option Buffer) (c : Connection) : Type 0 where
  pub consistent : AreConsistent c.transaction_descriptors c.in_transaction
  pub current : current_transaction_descriptor c ≡ some (descriptor_of t)
  pub inside : c.in_transaction ≡ is_some t

push-AreConsistent :
    (ds : List (Option Buffer)) (b : Bool) (d : Buffer)
    → AreConsistent ds b
    → AreConsistent (ds ++ (some d ∷ [])) true
push-AreConsistent [] b d h = absurd h
push-AreConsistent (e ∷ ds) b d h =
    (h.0, sym (ltb-true _ _ (omega (arith, length-append ds (some d ∷ [])))))

truncate-AreConsistent :
    (ds : List (Option Buffer)) (b : Bool)
    → AreConsistent ds b
    → AreConsistent (set_length_1 ds) false
truncate-AreConsistent [] b h = absurd h
truncate-AreConsistent (d ∷ ds) b h = (h.0, refl)

last_descriptor-push :
    (ds : List (Option Buffer)) (d : Option Buffer) → last_descriptor (ds ++ (d ∷ [])) ≡ d
unfolding last_descriptor
last_descriptor-push [] d = refl
last_descriptor-push (e ∷ []) d = refl
last_descriptor-push (e ∷ f ∷ ds) d = last_descriptor-push (f ∷ ds) d

last_descriptor-truncate :
    (ds : List (Option Buffer)) (b : Bool)
    → AreConsistent ds b
    → last_descriptor (set_length_1 ds) ≡ some no_transaction
unfolding last_descriptor
last_descriptor-truncate [] b h = absurd h
last_descriptor-truncate (d ∷ ds) b h = h.0

-- The same descriptors, whatever else has changed.
kept :
    {t : Option Buffer} (c c' : Connection)
    → c'.transaction_descriptors ≡ c.transaction_descriptors
    → c'.in_transaction ≡ c.in_transaction
    → Represents t c
    → Represents t c'
unfolding current_transaction_descriptor
kept c c' e i r = record {
  consistent = rw (e, i) r.consistent;
  current = ap last_descriptor e ∙ r.current;
  inside = i ∙ r.inside;
}

module _ (t : Option Buffer) (c : Connection) (r : Represents t c) where
  begun : (d : Buffer) → Represents (some d) (on_begin_transaction d c)
  unfolding on_begin_transaction current_transaction_descriptor
  begun d = record {
    consistent = push-AreConsistent c.transaction_descriptors c.in_transaction d r.consistent;
    current = last_descriptor-push c.transaction_descriptors (some d);
    inside = refl;
  }

  committed : Represents none (on_commit_transaction c)
  unfolding on_commit_transaction current_transaction_descriptor
  committed = record {
    consistent = truncate-AreConsistent c.transaction_descriptors c.in_transaction r.consistent;
    current = last_descriptor-truncate c.transaction_descriptors c.in_transaction r.consistent;
    inside = refl;
  }

  rolled_back : Represents none (on_rollback_transaction c)
  unfolding on_rollback_transaction current_transaction_descriptor
  rolled_back = record {
    consistent = truncate-AreConsistent c.transaction_descriptors c.in_transaction r.consistent;
    current = last_descriptor-truncate c.transaction_descriptors c.in_transaction r.consistent;
    inside = refl;
  }

  on_env_change-Represents :
      (change : EnvChangeData)
      → IsSessionChange change
      → Succeeds (Represents (transaction_after (env_change change) t)) (on_env_change change c)
  unfolding on_env_change
  on_env_change-Represents (database new old) q = kept c _ refl refl r
  on_env_change-Represents (language new old) q = kept c _ refl refl r
  on_env_change-Represents (charset new old) q = kept c _ refl refl r
  on_env_change-Represents (collation_change new old) q = kept c _ refl refl r
  on_env_change-Represents (packet_size new old) q = kept c _ refl refl r
  on_env_change-Represents (reset_connection new old) q = kept c _ refl refl r
  on_env_change-Represents (begin_transaction new old) q = begun new
  on_env_change-Represents (commit_transaction new old) q = committed
  on_env_change-Represents (rollback_transaction new old) q = rolled_back
  on_env_change-Represents (routing new old) q = absurd q
  on_env_change-Represents (database_mirroring_partner new old) q = absurd q

  initial_sql_handler-Represents :
      (token : Token)
      → IsResponse token
      → Succeeds (Represents (transaction_after token t)) (initial_sql_handler token c)
  unfolding initial_sql_handler
  initial_sql_handler-Represents (env_change change) q = on_env_change-Represents change q
  initial_sql_handler-Represents (info_message m) q = kept c _ refl refl r
  initial_sql_handler-Represents (error_message m) q = kept c _ refl refl r
  initial_sql_handler-Represents (col_metadata m) q = kept c _ refl refl r
  initial_sql_handler-Represents (order m) q = kept c _ refl refl r
  initial_sql_handler-Represents (row m) q = kept c _ refl refl r
  initial_sql_handler-Represents (nbc_row m) q = kept c _ refl refl r
  initial_sql_handler-Represents (return_status m) q = r
  initial_sql_handler-Represents (return_value m) q = r
  initial_sql_handler-Represents (done_proc m) q = r
  initial_sql_handler-Represents (done_in_proc m) q = r
  initial_sql_handler-Represents (done m) q = r
  initial_sql_handler-Represents (login_ack m) q = absurd q
  initial_sql_handler-Represents (feature_ext_ack m n) q = absurd q
  initial_sql_handler-Represents (sspi m n) q = absurd q
  initial_sql_handler-Represents (fed_auth_info m n) q = absurd q

-- A live request that keeps the descriptors.
unless-Represents :
    (t : Option Buffer) (f : Handler → Handler) (h : Handler)
    → Represents t h.connection
    → (f h).connection.transaction_descriptors ≡ h.connection.transaction_descriptors
    → (f h).connection.in_transaction ≡ h.connection.in_transaction
    → Represents t (unless_canceled f h).connection
unless-Represents t f h r e i = cases h.canceled
  where
    cases : (b : Bool) → Represents t (if b then h else f h).connection
    cases true = r
    cases false = kept h.connection (f h).connection e i r

on_handled-Represents :
    (t : Option Buffer) (h : Handler) (r : Handled Connection)
    → Succeeds (Represents t) r
    → Succeeds (λ h'. Represents t h'.connection) (on_handled h r)
on_handled-Represents t h (handled c) r = r
on_handled-Represents t h unexpected_token r = absurd r

module _ (t : Option Buffer) (h : Handler) (r : Represents t h.connection) where
  request_handler-Represents :
      (token : Token)
      → IsResponse token
      → Succeeds
          (λ h'. Represents (transaction_after token t) h'.connection)
          (request_handler token h)
  unfolding request_handler on_error_message on_col_metadata on_row on_done_proc on_done_in_proc
      on_done
  request_handler-Represents (env_change change) q =
      on_handled-Represents _ h _ (on_env_change-Represents t h.connection r change q)
  request_handler-Represents (info_message m) q = kept h.connection _ refl refl r
  request_handler-Represents (error_message m) q =
      unless-Represents t (push_error m) (emits (error_event m) h)
        (kept h.connection (emit (error_event m) h.connection) refl refl r) refl refl
  request_handler-Represents (col_metadata m) q =
      unless-Represents t (on_col_metadata m) h r refl refl
  request_handler-Represents (order m) q = unless-Represents t (emits (order_event m)) h r refl refl
  request_handler-Represents (row m) q = unless-Represents t (on_row m) h r refl refl
  request_handler-Represents (nbc_row m) q = unless-Represents t (on_row m) h r refl refl
  request_handler-Represents (return_status m) q =
      unless-Represents t (with_connection (with_return_status (some m))) h r refl refl
  request_handler-Represents (return_value m) q =
      unless-Represents t (emits (return_value_event m)) h r refl refl
  request_handler-Represents (done_proc m) q = unless-Represents t (on_done_proc m) h r refl refl
  request_handler-Represents (done_in_proc m) q =
      unless-Represents t (on_done_in_proc m) h r refl refl
  request_handler-Represents (done m) q = unless-Represents t (on_done m) h r refl refl
  request_handler-Represents (login_ack m) q = absurd q
  request_handler-Represents (feature_ext_ack m n) q = absurd q
  request_handler-Represents (sspi m n) q = absurd q
  request_handler-Represents (fed_auth_info m n) q = absurd q

-- From a connection that represents a transaction or none, the response to a request, of tokens that are
-- no login's, is taken to its end, and the connection represents what its transaction tokens tell: its
-- first descriptor is the one of no transaction, the current one is the last begun or that one, and
-- inTransaction is whether a transaction is open. It does not matter whether the request is canceled.
pub request_handler_transactions :
    (tokens : List Token) (t : Option Buffer) (h : Handler)
    → All IsResponse tokens
    → Represents t h.connection
    → Succeeds
        (λ h'. Represents (transaction_after_all tokens t) h'.connection)
        (handle_all request_handler tokens h)
unfolding transaction_after_all handle_all
request_handler_transactions [] t h q r = r
request_handler_transactions (token ∷ tokens) t h q r =
    and_handle-Succeeds (λ h'. Represents (transaction_after token t) h'.connection) _
      (request_handler token h) (handle_all request_handler tokens)
      (request_handler-Represents t h r token q.0)
      λ h' r'. request_handler_transactions tokens (transaction_after token t) h' q.1 r'

-- The same of the response to the initial SQL batch.
pub initial_sql_handler_transactions :
    (tokens : List Token) (t : Option Buffer) (c : Connection)
    → All IsResponse tokens
    → Represents t c
    → Succeeds
        (Represents (transaction_after_all tokens t))
        (handle_all initial_sql_handler tokens c)
unfolding transaction_after_all handle_all
initial_sql_handler_transactions [] t c q r = r
initial_sql_handler_transactions (token ∷ tokens) t c q r =
    and_handle-Succeeds (Represents (transaction_after token t)) _ (initial_sql_handler token c)
      (handle_all initial_sql_handler tokens) (initial_sql_handler-Represents t c r token q.0)
      λ c' r'. initial_sql_handler_transactions tokens (transaction_after token t) c' q.1 r'
