-- ===== src/Handler/Requests.antt =====
-- What RequestTokenHandler of lib/token/handler.js collects for a request that is not canceled.
use tedious.Prelude.{
  ◌+◌, ℕ, ◌≡◌, refl, sym, ap, ◌∙◌, Bool, true, false, Option, none, some, List, [], ◌∷◌, ◌++◌,
  ltb-true, length, append-nil, arith, if◌then◌else◌, ◌⊎◌, inl, inr,
}
use tedious.Prelude.Double.{to_double}
use tedious.Token.{
  Token, DoneData, MessageData, RowColumns, done, done_in_proc, done_proc, error_message, row,
  nbc_row,
}
use tedious.Handler.{error_event}
use tedious.Handler.Request.{
  Handler, RequestError, request_error, aggregate_error, unknown_error, unless_canceled, emits,
  push_error, push_if, error_of, plus, or_unknown, on_row,
}

-- What a token brings: a row count, a row, an error.
abbrev pub count_of : Token → Option ℕ
count_of (done d) = d.row_count
count_of (done_in_proc d) = d.row_count
count_of (done_proc d) = d.row_count
count_of token = none

abbrev pub row_of : Token → List RowColumns
row_of (row columns) = columns ∷ []
row_of (nbc_row columns) = columns ∷ []
row_of token = []

abbrev pub error_message_of : Token → List MessageData
error_message_of (error_message m) = m ∷ []
error_message_of token = []

-- A sum of a row count and that of a token, as a double.
abbrev pub add_count : ℕ → Option ℕ → ℕ
add_count count none = count
add_count count (some k) = to_double (count + k)

plus-add_count : (count : ℕ) (o : Option ℕ) → plus count o ≡ add_count count o
plus-add_count count none = refl
plus-add_count count (some k) = refl

-- A row count that grows, as a double, by those of the tokens.
abbrev pub total_count : ℕ → List Token → ℕ
total_count count [] = count
total_count count (token ∷ tokens) = total_count (add_count count (count_of token)) tokens

abbrev pub all_rows : List Token → List RowColumns
all_rows [] = []
all_rows (token ∷ tokens) = row_of token ++ all_rows tokens

abbrev pub all_errors : List Token → List MessageData
all_errors [] = []
all_errors (token ∷ tokens) = error_message_of token ++ all_errors tokens

-- The error for errors in their order: the only one, or for a request all of them, for a bulk load the last.
abbrev pub error_for : Bool → List MessageData → Option RequestError
error_for is_request [] = none
error_for is_request (m ∷ []) = some (request_error m)
error_for true (m ∷ n ∷ ms) = some (aggregate_error (m ∷ n ∷ ms))
error_for false (m ∷ n ∷ ms) = error_for false (n ∷ ms)

-- Without an ERROR token the error is the one that the request has had before, or 'An unknown error has occurred.' where it
-- has had none.
abbrev pub FitsError : Option RequestError → Option RequestError → Bool → List MessageData → Type 0
FitsError error initial is_request [] =
    (error ≡ initial) ⊎ ((initial ≡ none) × (error ≡ some unknown_error))
FitsError error initial is_request (m ∷ ms) = error ≡ error_for is_request (m ∷ ms)

-- A live request with what it has collected, and `initial` for the error that it began with. `collects`: rowCollectionOnRequestCompletion.
pub record Collected (is_request collects : Bool) (initial : Option RequestError) (count : ℕ)
    (rows : List RowColumns) (errors : List MessageData) (h : Handler) : Type 0 where
  pub live : h.canceled ≡ false
  pub kind : h.is_request ≡ is_request
  pub config : h.connection.config.row_collection_on_request_completion ≡ collects
  pub row_count : h.row_count ≡ count
  pub all_rows : h.rows ≡ (if collects then rows else [])
  pub all_errors : h.errors ≡ errors
  pub error : FitsError h.error initial is_request errors

error_for-push :
    (b : Bool) (ms : List MessageData) (m : MessageData)
    → error_for b (ms ++ (m ∷ [])) ≡ some (error_of b (ms ++ (m ∷ [])) m)
error_for-push true [] m = refl
error_for-push false [] m = refl
error_for-push true (n ∷ []) m = refl
error_for-push false (n ∷ []) m = refl
error_for-push true (n ∷ k ∷ ms) m = sym (
    ap (λ b. some (if b then aggregate_error (n ∷ k ∷ (ms ++ (m ∷ []))) else request_error m))
      (ltb-true 1 (length (n ∷ k ∷ (ms ++ (m ∷ [])))) (omega arith)))
error_for-push false (n ∷ k ∷ ms) m = error_for-push false (k ∷ ms) m

FitsError-push :
    (initial : Option RequestError) (b : Bool) (ms : List MessageData) (m : MessageData)
    → FitsError (some (error_of b (ms ++ (m ∷ [])) m)) initial b (ms ++ (m ∷ []))
FitsError-push initial b [] m = sym (error_for-push b [] m)
FitsError-push initial b (n ∷ ms) m = sym (error_for-push b (n ∷ ms) m)

FitsError-unknown :
    (e initial : Option RequestError) (b sql_error : Bool) (ms : List MessageData)
    → FitsError e initial b ms
    → FitsError (or_unknown sql_error e) initial b ms
FitsError-unknown (some e) initial b sql_error ms h = h
FitsError-unknown none initial b true [] (inl h) = inr (sym h, refl)
FitsError-unknown none initial b true [] (inr h) = inr (h.0, refl)
FitsError-unknown none initial b false [] h = h
FitsError-unknown none initial b sql_error (m ∷ ms) h = absurd (nothing b m ms h)
  where
    nothing : (b : Bool) (m : MessageData) (ms : List MessageData) → none ≡ error_for b (m ∷ ms) → ⊥
    nothing b m [] h = cc
    nothing true m (n ∷ ms) h = cc
    nothing false m (n ∷ ms) h = nothing false n ms h

pub unless_live :
    (P : Handler → Type 0) (f : Handler → Handler) (h : Handler)
    → h.canceled ≡ false
    → P (f h)
    → P (unless_canceled f h)
unless_live P f h e p = cases h.canceled e
  where
    cases : (b : Bool) → b ≡ false → P (if b then h else f h)
    cases true e = cc
    cases false e = p

push_rows :
    (collects : Bool) (rows : List RowColumns) (columns : RowColumns)
    → push_if collects (if collects then rows else []) columns
      ≡ (if collects then rows ++ (columns ∷ []) else [])
push_rows true rows columns = refl
push_rows false rows columns = refl

module _ (b collects : Bool) (initial : Option RequestError) (count : ℕ) (rows : List RowColumns)
    (errors : List MessageData) where
  -- Nothing is collected.
  same :
      (h : Handler)
      → Collected b collects initial count rows errors h
      → Collected b collects initial count (rows ++ []) (errors ++ []) h
  same h c = rw (append-nil rows, append-nil errors) c

  module _ (h : Handler) (c : Collected b collects initial count rows errors h) where
    pub push_error-Collected :
        (m : MessageData)
        → Collected b collects initial count
            (rows ++ [])
            (errors ++ (m ∷ []))
            (push_error m (emits (error_event m) h))
    push_error-Collected m = rw (append-nil rows) (record {
      live = c.live;
      kind = c.kind;
      config = c.config;
      row_count = c.row_count;
      all_rows = c.all_rows;
      all_errors = ap (λ es. es ++ (m ∷ [])) c.all_errors;
      error = rw (c.all_errors, c.kind) (FitsError-push initial b errors m);
    })

    pub on_row-Collected :
        (columns : RowColumns)
        → Collected b collects initial count
            (rows ++ (columns ∷ []))
            (errors ++ [])
            (on_row columns h)
    unfolding on_row
    on_row-Collected columns = rw (append-nil errors) (record {
      live = c.live;
      kind = c.kind;
      config = c.config;
      row_count = c.row_count;
      all_rows = rw (c.config, c.all_rows) (push_rows collects rows columns);
      all_errors = c.all_errors;
      error = c.error;
    })

    -- The fields that a handler has kept, and an error that is not of an ERROR token.
    pub kept :
        (h' : Handler)
        → h'.canceled ≡ h.canceled
        → h'.is_request ≡ h.is_request
        → h'.connection.config ≡ h.connection.config
        → h'.row_count ≡ h.row_count
        → h'.rows ≡ h.rows
        → h'.errors ≡ h.errors
        → h'.error ≡ h.error
        → Collected b collects initial count (rows ++ []) (errors ++ []) h'
    kept h' e0 e1 e2 e3 e4 e5 e6 = same h' (record {
      live = e0 ∙ c.live;
      kind = e1 ∙ c.kind;
      config = ap (λ x. x.row_collection_on_request_completion) e2 ∙ c.config;
      row_count = e3 ∙ c.row_count;
      all_rows = e4 ∙ c.all_rows;
      all_errors = e5 ∙ c.all_errors;
      error = rw (e6) c.error;
    })

    pub counted :
        (d : DoneData) (h' : Handler) (sql_error : Bool)
        → h'.canceled ≡ h.canceled
        → h'.is_request ≡ h.is_request
        → h'.connection.config ≡ h.connection.config
        → h'.row_count ≡ plus h.row_count d.row_count
        → h'.rows ≡ h.rows
        → h'.errors ≡ h.errors
        → h'.error ≡ or_unknown sql_error h.error
        → Collected b collects initial (add_count count d.row_count) (rows ++ []) (errors ++ []) h'
    counted d h' sql_error e0 e1 e2 e3 e4 e5 e6 =
        rw (append-nil rows, append-nil errors)
          (record {
            live = e0 ∙ c.live;
            kind = e1 ∙ c.kind;
            config = ap (λ x. x.row_collection_on_request_completion) e2 ∙ c.config;
            row_count =
                e3 ∙ ap (λ n. plus n d.row_count) c.row_count ∙ plus-add_count count d.row_count;
            all_rows = e4 ∙ c.all_rows;
            all_errors = e5 ∙ c.all_errors;
            error = rw (e6) (FitsError-unknown h.error initial b sql_error errors c.error);
          })
