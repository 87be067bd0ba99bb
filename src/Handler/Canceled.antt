-- ===== src/Handler/Canceled.antt =====
-- A response that goes to RequestTokenHandler of lib/token/handler.js, for a request that is canceled.
use tedious.Prelude.{
  ◌≡◌, refl, ap, ◌∙◌, Bool, true, false, some, List, [], ◌∷◌, ◌++◌, All, if◌then◌else◌,
}
use tedious.Token.{
  Token, EnvChangeData, col_metadata, done, done_in_proc, done_proc, info_message, error_message,
  login_ack, order, return_status, feature_ext_ack, env_change, row, nbc_row, return_value, sspi,
  fed_auth_info, database, language, charset, database_mirroring_partner, packet_size,
  begin_transaction, commit_transaction, rollback_transaction, reset_connection, collation_change,
  routing,
}
use tedious.Handler.{
  Connection, Event, info_event, error_event, database_change, language_change, charset_change,
  rollback_event, reset_event, unexpected_columns, unexpected_order, unexpected_row, closed,
  connected_event, end_event, rerouting_event, retry_event, no_such_event, connect_failed_event,
  lost_event, Handled, handled, unexpected_token, emit, order_event, return_value_event,
}
use tedious.Handler.Session.{
  on_env_change, on_begin_transaction, on_commit_transaction, on_rollback_transaction,
}
use tedious.Handler.Request.{
  Handler, request_handler, on_handled, emits, unless_canceled, on_error_message, push_error,
  with_connection, on_col_metadata, on_row, on_done_proc, on_done_in_proc, on_done,
  with_return_status,
}
use tedious.Handler.Dispatch.{
  Succeeds, Succeeds-map, and_handle-Succeeds, handle_all, IsResponse, IsSessionChange,
}

-- Emitted on the request.
abbrev pub is_request_event : Event → Bool
is_request_event (info_event m) = false
is_request_event (error_event m) = false
is_request_event (database_change s) = false
is_request_event (language_change s) = false
is_request_event (charset_change s) = false
is_request_event rollback_event = false
is_request_event reset_event = false
is_request_event unexpected_columns = false
is_request_event unexpected_order = false
is_request_event unexpected_row = false
is_request_event closed = false
is_request_event connected_event = false
is_request_event end_event = false
is_request_event rerouting_event = false
is_request_event retry_event = false
is_request_event no_such_event = false
is_request_event (connect_failed_event e) = false
is_request_event (lost_event e) = false
is_request_event event = true

unfoldable pub request_events : List Event → List Event
request_events [] = []
request_events (e ∷ es) =
    let rest = request_events es in if is_request_event e then e ∷ rest else rest

request_events-push :
    (es : List Event) (e : Event)
    → is_request_event e ≡ false
    → request_events (es ++ (e ∷ [])) ≡ request_events es
unfolding request_events
request_events-push [] e h = rw (h) refl
request_events-push (f ∷ es) e h =
    ap (λ rest. if is_request_event f then f ∷ rest else rest) (request_events-push es e h)

-- What a canceled request keeps.
pub record IsUntouched (h h' : Handler) : Type 0 where
  pub canceled : h'.canceled ≡ true
  pub error : h'.error ≡ h.error
  pub row_count : h'.row_count ≡ h.row_count
  pub rows : h'.rows ≡ h.rows
  pub rst : h'.rst ≡ h.rst
  pub errors : h'.errors ≡ h.errors
  pub return_status : h'.connection.proc_return_status_value ≡ h.connection.proc_return_status_value
  pub events : request_events h'.connection.events ≡ request_events h.connection.events

IsUntouched-trans : {h h' h'' : Handler} → IsUntouched h h' → IsUntouched h' h'' → IsUntouched h h''
IsUntouched-trans a b = record {
  canceled = b.canceled;
  error = b.error ∙ a.error;
  row_count = b.row_count ∙ a.row_count;
  rows = b.rows ∙ a.rows;
  rst = b.rst ∙ a.rst;
  errors = b.errors ∙ a.errors;
  return_status = b.return_status ∙ a.return_status;
  events = b.events ∙ a.events;
}

-- The two fields of the connection that matter here.
abbrev Quiet : Connection → Connection → Type 0
Quiet c c' =
    (c'.proc_return_status_value ≡ c.proc_return_status_value)
    × (request_events c'.events ≡ request_events c.events)

on_env_change-Quiet :
    (change : EnvChangeData) (c : Connection)
    → IsSessionChange change
    → Succeeds (Quiet c) (on_env_change change c)
unfolding on_env_change on_begin_transaction on_commit_transaction on_rollback_transaction
on_env_change-Quiet (database new old) c q =
    (refl, request_events-push c.events (database_change new) refl)
on_env_change-Quiet (language new old) c q =
    (refl, request_events-push c.events (language_change new) refl)
on_env_change-Quiet (charset new old) c q =
    (refl, request_events-push c.events (charset_change new) refl)
on_env_change-Quiet (collation_change new old) c q = (refl, refl)
on_env_change-Quiet (packet_size new old) c q = (refl, refl)
on_env_change-Quiet (begin_transaction new old) c q = (refl, refl)
on_env_change-Quiet (commit_transaction new old) c q = (refl, refl)
on_env_change-Quiet (rollback_transaction new old) c q =
    (refl, request_events-push c.events (rollback_event) refl)
on_env_change-Quiet (reset_connection new old) c q =
    (refl, request_events-push c.events (reset_event) refl)
on_env_change-Quiet (routing new old) c q = absurd q
on_env_change-Quiet (database_mirroring_partner new old) c q = absurd q

module _ (h : Handler) (canceled : h.canceled ≡ true) where
  untouched : IsUntouched h h
  untouched = record {
    canceled = canceled;
    error = refl;
    row_count = refl;
    rows = refl;
    rst = refl;
    errors = refl;
    return_status = refl;
    events = refl;
  }

  quiet : (c : Connection) → Quiet h.connection c → IsUntouched h (with_connection (λ _. c) h)
  quiet c e = record {
    canceled = canceled;
    error = refl;
    row_count = refl;
    rows = refl;
    rst = refl;
    errors = refl;
    return_status = e.0;
    events = e.1;
  }

  skipped : (f : Handler → Handler) → IsUntouched h (unless_canceled f h)
  skipped f = cases h.canceled canceled
    where
      cases : (b : Bool) → b ≡ true → IsUntouched h (if b then h else f h)
      cases true e = untouched
      cases false e = cc

  on_handled-IsUntouched :
      (r : Handled Connection)
      → Succeeds (Quiet h.connection) r
      → Succeeds (IsUntouched h) (on_handled h r)
  on_handled-IsUntouched (handled c) e = quiet c e
  on_handled-IsUntouched unexpected_token e = absurd e

  logged : (e : Event) → is_request_event e ≡ false → IsUntouched h (emits e h)
  logged e x = quiet (emit e h.connection) (refl, request_events-push h.connection.events e x)

module _ (h : Handler) (canceled : h.canceled ≡ true) where
  request_handler-IsUntouched :
      (token : Token) → IsResponse token → Succeeds (IsUntouched h) (request_handler token h)
  unfolding request_handler on_error_message
  request_handler-IsUntouched (env_change change) q =
      on_handled-IsUntouched h canceled (on_env_change change h.connection)
        (on_env_change-Quiet change h.connection q)
  request_handler-IsUntouched (info_message m) q = logged h canceled (info_event m) refl
  request_handler-IsUntouched (error_message m) q =
      IsUntouched-trans (logged h canceled (error_event m) refl)
        (skipped (emits (error_event m) h) canceled (push_error m))
  request_handler-IsUntouched (col_metadata m) q = skipped h canceled (on_col_metadata m)
  request_handler-IsUntouched (order m) q = skipped h canceled (emits (order_event m))
  request_handler-IsUntouched (row m) q = skipped h canceled (on_row m)
  request_handler-IsUntouched (nbc_row m) q = skipped h canceled (on_row m)
  request_handler-IsUntouched (return_status m) q =
      skipped h canceled (with_connection (with_return_status (some m)))
  request_handler-IsUntouched (return_value m) q = skipped h canceled (emits (return_value_event m))
  request_handler-IsUntouched (done_proc m) q = skipped h canceled (on_done_proc m)
  request_handler-IsUntouched (done_in_proc m) q = skipped h canceled (on_done_in_proc m)
  request_handler-IsUntouched (done m) q = skipped h canceled (on_done m)
  request_handler-IsUntouched (login_ack m) q = absurd q
  request_handler-IsUntouched (feature_ext_ack m n) q = absurd q
  request_handler-IsUntouched (sspi m n) q = absurd q
  request_handler-IsUntouched (fed_auth_info m n) q = absurd q

-- For a canceled request, the response, of tokens that are no login's, is taken to its end, and of the
-- request neither error, rowCount, rows nor rst change, the handler's errors and the return status do not
-- either, and nothing is emitted on the request.
pub request_handler_canceled :
    (tokens : List Token) (h : Handler)
    → h.canceled ≡ true
    → All IsResponse tokens
    → Succeeds (IsUntouched h) (handle_all request_handler tokens h)
unfolding handle_all
request_handler_canceled [] h canceled q = untouched h canceled
request_handler_canceled (token ∷ tokens) h canceled q =
    and_handle-Succeeds (IsUntouched h) _ (request_handler token h)
      (handle_all request_handler tokens) (request_handler-IsUntouched h canceled token q.0)
      λ h' u.
        Succeeds-map (IsUntouched h') (IsUntouched h) (λ h'' u'. IsUntouched-trans u u')
          (handle_all request_handler tokens h') (request_handler_canceled tokens h' u.canceled q.1)
