-- ===== src/StreamParser/Reading.antt =====
-- readToken of lib/token/stream-parser.js next to the reading of a token from all the bytes.
use tedious.Prelude.{
  ℕ, zero, suc, ◌≤◌, ◌≡◌, refl, ap, Bool, true, false, Option, none, some, List, [],
}
use tedious.Prelude.{◌==◌, if◌then◌else◌, length}
use tedious.Metadata.{Options}
use tedious.Read.{Read, Result, result, not_enough_data, thrown, pure, throw, ◌>>=◌, continue}
use tedious.Read.Stable.{IsStable, bind-IsStable, pure-IsStable}
use tedious.Read.Variable.{read_uint16_le-IsStable}
use tedious.Token.{Token, ColumnMetadata, col_metadata}
use tedious.Token.Done.{
  done_parser-IsStable, done_in_proc_parser-IsStable, done_proc_parser-IsStable,
}
use tedious.Token.InfoError.{info_parser-IsStable, error_parser-IsStable}
use tedious.Token.LoginAck.{login_ack_parser-IsStable}
use tedious.Token.Order.{order_parser-IsStable}
use tedious.Token.FedAuthInfo.{fed_auth_info_parser-IsStable}
use tedious.Token.Sspi.{sspi_parser-IsStable}
use tedious.Buffer.{Buffer, JsString}
use tedious.Collation.Codepages.{Codepage}
use tedious.Token.ReturnStatus.{return_status_parser-IsStable}
use tedious.Token.EnvChange.Stable.{env_change_parser-IsStable}
use tedious.Token.FeatureExtAck.Stable.{feature_ext_ack_parser-IsStable}
use tedious.Token.ColMetadata.{read_column-IsStable}
use tedious.StreamParser.{Parser, Outcome, ok, failed, unfinished, and_then}
use tedious.StreamParser.Tokens.{
  read_row_or_other, defined, parser_of, session_parser_of, read_columns, col_metadata_parser,
  read_col_metadata_token, read_with, read_token, with_columns,
}
use tedious.StreamParser.Whole.{
  whole_columns, whole_col_metadata, known, new_columns, old_columns, whole_token,
  whole_row_or_other,
}
use tedious.StreamParser.Cells.Agree.{if-Implements}
use tedious.StreamParser.Rows.Agree.{
  row_parser-Implements, nbc_row_parser-Implements, return_parser-Implements,
}
use tedious.StreamParser.Refine.{
  view, IsReady, After, Agrees, Implements, retry-Implements, ok-Implements, bind-Implements,
}

-- Every parser that may be chosen is stable.
unfoldable pub IsStableIfAny : {A : Type 0} → Option (Read A) → Type 0
IsStableIfAny none = Unit {0}
IsStableIfAny (some p) = IsStable 0 p

none-IsStableIfAny : (A : Type 0) → IsStableIfAny {A = A} none
unfolding IsStableIfAny
none-IsStableIfAny A = tt

first-IsStableIfAny :
    {A : Type 0} {p : Read A} (b : Bool) (q : Option (Read A))
    → IsStable 0 p
    → IsStableIfAny q
    → IsStableIfAny (if b then some p else q)
unfolding IsStableIfAny
first-IsStableIfAny true q hp hq = hp
first-IsStableIfAny false q hp hq = hq

defined-IsStable : (p : Read Token) → IsStable 0 p → IsStable 0 (defined p)
unfolding defined
defined-IsStable p h = bind-IsStable _ _ h λ a. pure-IsStable _

session_parser_of-IsStable : (type : ℕ) → IsStableIfAny (session_parser_of type)
unfolding session_parser_of
session_parser_of-IsStable type = first-IsStableIfAny _ _ env_change_parser-IsStable (
    first-IsStableIfAny _ _ (defined-IsStable _ login_ack_parser-IsStable) (
      first-IsStableIfAny _ _ (defined-IsStable _ feature_ext_ack_parser-IsStable) (
        first-IsStableIfAny _ _ (defined-IsStable _ fed_auth_info_parser-IsStable) (
          first-IsStableIfAny _ none (defined-IsStable _ sspi_parser-IsStable)
            (none-IsStableIfAny _)))))

parser_of-IsStable : (options : Options) (type : ℕ) → IsStableIfAny (parser_of options type)
unfolding parser_of
parser_of-IsStable options type =
    first-IsStableIfAny _ _ (defined-IsStable _ (done_parser-IsStable options)) (
      first-IsStableIfAny _ _ (defined-IsStable _ (done_proc_parser-IsStable options)) (
        first-IsStableIfAny _ _ (defined-IsStable _ (done_in_proc_parser-IsStable options)) (
          first-IsStableIfAny _ _ (defined-IsStable _ (error_parser-IsStable options)) (
            first-IsStableIfAny _ _ (defined-IsStable _ (info_parser-IsStable options)) (
              first-IsStableIfAny _ _ (defined-IsStable _ return_status_parser-IsStable) (
                first-IsStableIfAny _ _ (defined-IsStable _ order_parser-IsStable)
                  (session_parser_of-IsStable type)))))))

module _ (fuel : ℕ) (options : Options) where
  whole_columns-IsStable : (k i : ℕ) → IsStable 0 (whole_columns options k i)
  unfolding whole_columns
  whole_columns-IsStable zero i = pure-IsStable _
  whole_columns-IsStable (suc k) i =
      bind-IsStable _ _ (read_column-IsStable options i)
        λ c. bind-IsStable _ _ (whole_columns-IsStable k (suc i)) λ r. pure-IsStable _

  -- The loop over the columns, with retries for each column.
  read_columns-Implements :
      (decode : Codepage → Buffer → JsString) (k i : ℕ)
      → Implements fuel (whole_columns options k i) (read_columns fuel options decode k i)
  unfolding whole_columns read_columns
  read_columns-Implements decode zero i = ok-Implements fuel []
  read_columns-Implements decode (suc k) i =
      bind-Implements fuel _ _ _ _ (retry-Implements fuel _ (read_column-IsStable options i))
        (λ c. bind-IsStable _ _ (whole_columns-IsStable k (suc i)) λ r. pure-IsStable _)
        λ c.
          bind-Implements fuel _ _ _ _ (read_columns-Implements decode k (suc i))
            (λ r. pure-IsStable _) λ r. ok-Implements fuel _

  col_metadata_parser-Implements :
      (decode : Codepage → Buffer → JsString)
      → Implements fuel (whole_col_metadata options) (col_metadata_parser fuel options decode)
  unfolding whole_col_metadata col_metadata_parser
  col_metadata_parser-Implements decode =
      bind-Implements fuel _ _ _ _ (retry-Implements fuel _ read_uint16_le-IsStable)
        (λ k. whole_columns-IsStable k 0) λ k. read_columns-Implements decode k 0

-- What a token leaves behind: its bytes are consumed and the columns are the ones that hold from here on.
abbrev pub TokenAgrees :
    Parser → Result (Option Token × List ColumnMetadata) → Outcome (Option Token) → Type 0
TokenAgrees s (result (token, columns) n) (ok b s') =
    (b ≡ token) × After n s (with_columns s' s.columns) × (s'.columns ≡ columns)
TokenAgrees s (thrown e) (failed x) = x ≡ e
TokenAgrees s (not_enough_data n) unfinished = Unit {0}
TokenAgrees s r o = ⊥

TokenAgrees-old :
    (s : Parser) (r : Result (Option Token)) (o : Outcome (Option Token))
    → Agrees s r o
    → TokenAgrees s (continue r (λ t. pure (old_columns s.columns t)) (view s)) o
unfolding pure
TokenAgrees-old s (result a n) (ok b s') h = (
  h.0,
  record {
    enough = h.1.enough;
    rest = h.1.rest;
    ready = h.1.ready;
    fewer = h.1.fewer;
    columns = refl;
  },
  h.1.columns,
)
TokenAgrees-old s (result a n) (failed e) h = absurd h
TokenAgrees-old s (result a n) unfinished h = absurd h
TokenAgrees-old s (thrown e) (failed x) h = h
TokenAgrees-old s (thrown e) (ok b s') h = absurd h
TokenAgrees-old s (thrown e) unfinished h = absurd h
TokenAgrees-old s (not_enough_data n) unfinished h = tt
TokenAgrees-old s (not_enough_data n) (ok b s') h = absurd h
TokenAgrees-old s (not_enough_data n) (failed e) h = absurd h

TokenAgrees-new :
    (s : Parser) (r : Result (List ColumnMetadata)) (o : Outcome (List ColumnMetadata))
    → Agrees s r o
    → TokenAgrees s
        (continue r (λ cs. pure (new_columns cs)) (view s))
        (and_then o λ cs s'. ok (some (col_metadata cs)) (with_columns s' cs))
unfolding pure
TokenAgrees-new s (result a n) (ok b s') h = (
  ap (λ cs. some (col_metadata cs)) h.0,
  record {
    enough = h.1.enough;
    rest = h.1.rest;
    ready = h.1.ready;
    fewer = h.1.fewer;
    columns = refl;
  },
  h.0,
)
TokenAgrees-new s (result a n) (failed e) h = absurd h
TokenAgrees-new s (result a n) unfinished h = absurd h
TokenAgrees-new s (thrown e) (failed x) h = h
TokenAgrees-new s (thrown e) (ok b s') h = absurd h
TokenAgrees-new s (thrown e) unfinished h = absurd h
TokenAgrees-new s (not_enough_data n) unfinished h = tt
TokenAgrees-new s (not_enough_data n) (ok b s') h = absurd h
TokenAgrees-new s (not_enough_data n) (failed e) h = absurd h

module _ (fuel : ℕ) (options : Options) (decode : Codepage → Buffer → JsString) where
  known_lem :
      (type : ℕ) (o : Option (Read (Option Token)))
      → IsStableIfAny o
      → Implements fuel (known type o) (read_with fuel options decode type o)
  unfolding IsStableIfAny Implements throw
  known_lem type none h = λ s ready few. refl
  known_lem type (some p) h = retry-Implements fuel p h

  row_or_other_lem :
      (type : ℕ) (columns : List ColumnMetadata)
      → Implements fuel
          (whole_row_or_other options decode type columns)
          (read_row_or_other fuel options decode type columns)
  unfolding whole_row_or_other read_row_or_other
  row_or_other_lem type columns =
      if-Implements fuel (type == 0xD1) _ _ _ _
        (bind-Implements fuel _ _ _ _ (row_parser-Implements fuel decode options columns)
          (λ c. pure-IsStable _) λ c. ok-Implements fuel _)
        (if-Implements fuel (type == 0xD2) _ _ _ _
          (bind-Implements fuel _ _ _ _ (nbc_row_parser-Implements fuel decode options columns)
            (λ c. pure-IsStable _) λ c. ok-Implements fuel _)
          (if-Implements fuel (type == 0xAC) _ _ _ _
            (bind-Implements fuel _ _ _ _ (return_parser-Implements fuel decode options)
              (λ c. pure-IsStable _) λ c. ok-Implements fuel _)
            (known_lem type _ (parser_of-IsStable options type))))

  -- Reading one token, of any type, from the chunks and from the bytes.
  pub read_token_lem :
      (type : ℕ) (s : Parser)
      → IsReady s
      → length s.chunks ≤ fuel
      → TokenAgrees s
          (whole_token options decode type s.columns (view s) 0)
          (read_token fuel options decode type s)
  unfolding whole_token read_token read_col_metadata_token Implements ◌>>=◌
  read_token_lem type s ready few = cases (type == 0x81)
    where
      cases :
          (b : Bool)
          → TokenAgrees s
              ((if b
                  then (whole_col_metadata options >>= λ cs. pure (new_columns cs))
                  else (whole_row_or_other options decode type s.columns >>= λ t.
                      pure (old_columns s.columns t)))
                (view s)
                0)
              (if b
                then read_col_metadata_token fuel options decode s
                else read_row_or_other fuel options decode type s.columns s)
      cases true =
          TokenAgrees-new s _ _ (col_metadata_parser-Implements fuel options decode s ready few)
      cases false = TokenAgrees-old s _ _ (row_or_other_lem type s.columns s ready few)
