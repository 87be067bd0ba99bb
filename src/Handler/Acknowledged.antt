-- ===== src/Handler/Acknowledged.antt =====
-- Login7TokenHandler and AttentionTokenHandler of lib/token/handler.js on whole responses.
use tedious.Prelude.{
  ◌≡◌, refl, ap, ◌∙◌, Bool, true, false, ◌||◌, Option, none, some, List, [], ◌∷◌, All,
  if◌then◌else◌, ◌==◌, length,
}
use tedious.Buffer.{Buffer, JsString}
use tedious.Token.{
  Token, EnvChangeData, col_metadata, done, done_in_proc, done_proc, info_message, error_message,
  login_ack, order, return_status, feature_ext_ack, env_change, row, nbc_row, return_value, sspi,
  fed_auth_info, database, language, charset, database_mirroring_partner, packet_size,
  begin_transaction, commit_transaction, rollback_transaction, reset_connection, collation_change,
  routing,
}
use tedious.Handler.{Connection, Handled, handled, unexpected_token, extra_data}
use tedious.Handler.Login7.{
  Login7, login7_handler, on_login_env_change, on_login_ack, ack_of, on_feature_ext_ack,
  on_login_error_message, uses_active_directory, acknowledged, unacknowledged, on_routing_change,
  with_login_error,
}
use tedious.Handler.Request.{attention_handler}
use tedious.Handler.Dispatch.{Succeeds, and_handle-Succeeds, handle_all}

abbrev pub IsLoginChange : EnvChangeData → Type 0
IsLoginChange (begin_transaction new old) = ⊥
IsLoginChange (commit_transaction new old) = ⊥
IsLoginChange (rollback_transaction new old) = ⊥
IsLoginChange (reset_connection new old) = ⊥
IsLoginChange change = Unit {0}

-- The tokens of the response to a login.
abbrev pub IsLogin : Token → Type 0
IsLogin (info_message m) = Unit {0}
IsLogin (error_message m) = Unit {0}
IsLogin (sspi challenge bytes) = Unit {0}
IsLogin (env_change change) = IsLoginChange change
IsLogin (fed_auth_info spn stsurl) = Unit {0}
IsLogin (feature_ext_ack fed_auth utf8) = Unit {0}
IsLogin (login_ack ack) = Unit {0}
IsLogin (done_in_proc d) = Unit {0}
IsLogin (done d) = Unit {0}
IsLogin token = ⊥

-- The version that an acknowledgement of a known version and a known interface brings.
abbrev pub version_of : Option JsString → Option JsString → Option JsString
version_of (some version) (some interface) = some version
version_of version interface = none

abbrev pub acked_version : Token → Option JsString
acked_version (login_ack ack) = version_of ack.tds_version ack.interface
acked_version token = none

-- Whether there was one, and the version of the last.
abbrev pub Ack : Type 0
Ack = Bool × JsString

abbrev pub take_version : Option JsString → Ack → Ack
take_version none a = a
take_version (some version) a = (true, version)

unfoldable pub ack_after : List Token → Ack → Ack
ack_after [] a = a
ack_after (token ∷ tokens) a = ack_after tokens (take_version (acked_version token) a)

-- The handler and its connection are in that state.
abbrev pub HasAck : Ack → Login7 → Type 0
HasAck a h = (h.login_ack_received ≡ a.0) × (h.connection.config.tds_version ≡ a.1)

on_login_ack-HasAck :
    (a : Ack) (h : Login7) (version interface : Option JsString)
    → HasAck a h
    → HasAck (take_version (version_of version interface) a) (ack_of version interface h)
on_login_ack-HasAck a h none interface r = r
on_login_ack-HasAck a h (some v) none r = r
on_login_ack-HasAck a h (some v) (some i) r = (refl, refl)

on_feature_ext_ack-version :
    (fed_auth : Option Buffer) (utf8 : Option Bool) (c : Connection)
    → (on_feature_ext_ack fed_auth utf8 c).config.tds_version ≡ c.config.tds_version
unfolding on_feature_ext_ack
on_feature_ext_ack-version fed_auth utf8 c =
    cases (uses_active_directory c.config.authentication_type)
  where
    extra :
        (b : Bool)
        → (if b then c else with_login_error extra_data c).config.tds_version ≡ c.config.tds_version
    extra true = refl
    extra false = refl

    due : (o : Option Buffer) → (acknowledged o c).config.tds_version ≡ c.config.tds_version
    due none = refl
    due (some bs) = extra (length bs == 0)

    undue :
        (o : Option Buffer) (u : Option Bool)
        → (unacknowledged o u c).config.tds_version ≡ c.config.tds_version
    undue none none = refl
    undue none (some u) = refl
    undue (some bs) u = refl

    cases :
        (b : Bool)
        → (if b then acknowledged fed_auth c else unacknowledged fed_auth utf8 c).config.tds_version
          ≡ c.config.tds_version
    cases true = due fed_auth
    cases false = undue fed_auth utf8

login7_handler-HasAck :
    (token : Token) (a : Ack) (h : Login7)
    → IsLogin token
    → HasAck a h
    → Succeeds (HasAck (take_version (acked_version token) a)) (login7_handler token h)
unfolding login7_handler on_login_env_change on_login_ack on_login_error_message on_routing_change
login7_handler-HasAck (info_message m) a h q r = r
login7_handler-HasAck (error_message m) a h q r = r
login7_handler-HasAck (sspi challenge bytes) a h q r = r
login7_handler-HasAck (env_change (database new old)) a h q r = r
login7_handler-HasAck (env_change (language new old)) a h q r = r
login7_handler-HasAck (env_change (charset new old)) a h q r = r
login7_handler-HasAck (env_change (collation_change new old)) a h q r = r
login7_handler-HasAck (env_change (packet_size new old)) a h q r = r
login7_handler-HasAck (env_change (routing new old)) a h q r = r
login7_handler-HasAck (env_change (database_mirroring_partner new old)) a h q r = r
login7_handler-HasAck (env_change (begin_transaction new old)) a h q r = absurd q
login7_handler-HasAck (env_change (commit_transaction new old)) a h q r = absurd q
login7_handler-HasAck (env_change (rollback_transaction new old)) a h q r = absurd q
login7_handler-HasAck (env_change (reset_connection new old)) a h q r = absurd q
login7_handler-HasAck (fed_auth_info spn stsurl) a h q r = r
login7_handler-HasAck (feature_ext_ack fed_auth utf8) a h q r =
    (r.0, on_feature_ext_ack-version fed_auth utf8 h.connection ∙ r.1)
login7_handler-HasAck (login_ack ack) a h q r =
    on_login_ack-HasAck a h ack.tds_version ack.interface r
login7_handler-HasAck (done_in_proc d) a h q r = r
login7_handler-HasAck (done d) a h q r = r
login7_handler-HasAck (done_proc d) a h q r = absurd q
login7_handler-HasAck (col_metadata d) a h q r = absurd q
login7_handler-HasAck (order d) a h q r = absurd q
login7_handler-HasAck (row d) a h q r = absurd q
login7_handler-HasAck (nbc_row d) a h q r = absurd q
login7_handler-HasAck (return_status d) a h q r = absurd q
login7_handler-HasAck (return_value d) a h q r = absurd q

-- The response to a login, of the tokens that belong to one, is taken to its end, and behind it
-- loginAckReceived holds exactly if it did before or if there was a LOGINACK token of a known version
-- and a known interface; the tdsVersion of the connection is that of the last such token, or as before.
pub login7_handler_ack :
    (tokens : List Token) (a : Ack) (h : Login7)
    → All IsLogin tokens
    → HasAck a h
    → Succeeds (HasAck (ack_after tokens a)) (handle_all login7_handler tokens h)
unfolding ack_after handle_all
login7_handler_ack [] a h q r = r
login7_handler_ack (token ∷ tokens) a h q r =
    and_handle-Succeeds (HasAck (take_version (acked_version token) a)) _ (login7_handler token h)
      (handle_all login7_handler tokens) (login7_handler-HasAck token a h q.0 r)
      λ h' r'. login7_handler_ack tokens (take_version (acked_version token) a) h' q.1 r'

-- The acknowledgement of an attention, read from the tokens: none if there is another than DONE.
unfoldable pub attention_of : List Token → Bool → Handled Bool
attention_of [] received = handled received
attention_of (done d ∷ tokens) received = attention_of tokens (d.attention || received)
attention_of (token ∷ tokens) received = unexpected_token

-- AttentionTokenHandler takes a response exactly if it has DONE tokens only, and then attentionReceived
-- holds if it did before or if one of them has the attention flag.
pub attention_handler_lem :
    (tokens : List Token) (received : Bool)
    → handle_all attention_handler tokens received ≡ attention_of tokens received
unfolding handle_all attention_handler attention_of
attention_handler_lem [] received = refl
attention_handler_lem (done d ∷ tokens) received =
    ap (handle_all attention_handler tokens) (either d.attention)
    ∙ attention_handler_lem tokens (d.attention || received)
  where
    either : (b : Bool) → (if b then true else received) ≡ (b || received)
    either true = refl
    either false = refl
attention_handler_lem (info_message d ∷ tokens) received = refl
attention_handler_lem (error_message d ∷ tokens) received = refl
attention_handler_lem (env_change d ∷ tokens) received = refl
attention_handler_lem (login_ack d ∷ tokens) received = refl
attention_handler_lem (done_proc d ∷ tokens) received = refl
attention_handler_lem (done_in_proc d ∷ tokens) received = refl
attention_handler_lem (col_metadata d ∷ tokens) received = refl
attention_handler_lem (order d ∷ tokens) received = refl
attention_handler_lem (row d ∷ tokens) received = refl
attention_handler_lem (nbc_row d ∷ tokens) received = refl
attention_handler_lem (return_status d ∷ tokens) received = refl
attention_handler_lem (return_value d ∷ tokens) received = refl
attention_handler_lem (feature_ext_ack d e ∷ tokens) received = refl
attention_handler_lem (sspi d e ∷ tokens) received = refl
attention_handler_lem (fed_auth_info d e ∷ tokens) received = refl
