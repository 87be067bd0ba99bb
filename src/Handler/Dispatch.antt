-- ===== src/Handler/Dispatch.antt =====
-- class Parser of lib/token/token-stream-parser.js: each token of the stream goes to the method of the handler that
-- its `handlerName` names, until a method throws.
use tedious.Prelude.{ℕ, Option, none, some, List, [], ◌∷◌}
use tedious.Buffer.{Buffer, JsString}
use tedious.Collation.Codepages.{Codepage}
use tedious.Metadata.{Options}
use tedious.Token.{
  Token, ColumnMetadata, EnvChangeData, login_ack, feature_ext_ack, env_change, sspi, fed_auth_info,
  database_mirroring_partner, routing,
}
use tedious.StreamParser.Tokens.{parse_tokens}
use tedious.Handler.{Handled, handled, unexpected_token}

abbrev pub IsDefined : Option Token → Type 0
IsDefined none = ⊥
IsDefined (some token) = Unit {0}

module _ {S : Type 0} where
  abbrev pub and_handle : Handled S → (S → Handled S) → Handled S
  and_handle (handled s) f = f s
  and_handle unexpected_token f = unexpected_token

  unfoldable pub handle_all : (Token → S → Handled S) → List Token → S → Handled S
  handle_all handler [] s = handled s
  handle_all handler (token ∷ tokens) s = and_handle (handler token s) (handle_all handler tokens)

  -- `handler[token.handlerName](token)`, of what parseTokens yields: of undefined it throws.
  unfoldable pub handle_yielded : (Token → S → Handled S) → List (Option Token) → S → Handled S
  handle_yielded handler [] s = handled s
  handle_yielded handler (none ∷ tokens) s = unexpected_token
  handle_yielded handler (some token ∷ tokens) s =
      and_handle (handler token s) (handle_yielded handler tokens)

  -- The parser of a response, with its handler.
  unfoldable pub handle_response :
      ℕ
      → Options
      → (Codepage → Buffer → JsString)
      → (Token → S → Handled S)
      → ℕ
      → List Buffer
      → List ColumnMetadata
      → S
      → Handled S
  unfolding handle_yielded parse_tokens
  handle_response fuel options decode handler rounds chunks columns s =
      handle_yielded handler (parse_tokens fuel options decode rounds chunks columns).yielded s

  -- The token is taken, and the state behind it is such.
  abbrev pub Succeeds : (S → Type 0) → Handled S → Type 0
  Succeeds P (handled s) = P s
  Succeeds P unexpected_token = ⊥

  pub Succeeds-map :
      (P R : S → Type 0) → ((s : S) → P s → R s) → (r : Handled S) → Succeeds P r → Succeeds R r
  Succeeds-map P R f (handled s) p = f s p
  Succeeds-map P R f unexpected_token p = p

  pub and_handle-Succeeds :
      (P R : S → Type 0) (r : Handled S) (f : S → Handled S)
      → Succeeds P r
      → ((s : S) → P s → Succeeds R (f s))
      → Succeeds R (and_handle r f)
  and_handle-Succeeds P R (handled s) f h k = k s h
  and_handle-Succeeds P R unexpected_token f h k = absurd h

abbrev pub IsSessionChange : EnvChangeData → Type 0
IsSessionChange (routing new old) = ⊥
IsSessionChange (database_mirroring_partner new old) = ⊥
IsSessionChange change = Unit {0}

-- The tokens of the response to a request: not those of a login.
abbrev pub IsResponse : Token → Type 0
IsResponse (env_change change) = IsSessionChange change
IsResponse (login_ack ack) = ⊥
IsResponse (feature_ext_ack fed_auth utf8) = ⊥
IsResponse (sspi challenge bytes) = ⊥
IsResponse (fed_auth_info spn stsurl) = ⊥
IsResponse token = Unit {0}
