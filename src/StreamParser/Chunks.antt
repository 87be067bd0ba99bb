-- ===== src/StreamParser/Chunks.antt =====
-- Parser.parseTokens of lib/token/stream-parser.js next to the specification on all the bytes.
use tedious.Prelude.{
  ℕ, zero, suc, ◌+◌, ◌*◌, ◌≤◌, ◌<◌, ◌≡◌, refl, sym, ap, ◌∙◌, Bool, true, false, Option, none, some,
  List, [], ◌∷◌, ◌++◌, arith,
}
use tedious.Prelude.{
  ◌==◌, leb-true, leb-false, le_or_lt, get_or, length, length-drop, drop-length, drop, concat,
  ==_iff, ◌⊎◌, inl, inr, if◌then◌else◌,
}
use tedious.Buffer.{Buffer, JsString}
use tedious.Collation.Codepages.{Codepage}
use tedious.Metadata.{Options}
use tedious.Read.{outside_model, Result, result, not_enough_data, thrown}
use tedious.Token.{Token, ColumnMetadata}
use tedious.StreamParser.{Parser, Outcome, ok, failed, unfinished, new_parser, wait_for_chunk}
use tedious.StreamParser.Tokens.{
  Ending, Run, ended, raised, stops, read_token, after_token, yield_token, run, parse_tokens, Phase,
  outer, inner, begin_token, with_columns,
}
use tedious.StreamParser.Whole.{keep, whole_token, follow, tokens_of}
use tedious.StreamParser.Refine.{
  view, IsReady, After, wait-view, wait-IsReady, wait-fewer, wait-columns,
}
use tedious.StreamParser.Reading.{TokenAgrees, read_token_lem}

-- The tokens among what is yielded.
unfoldable pub defined_tokens : {A : Type 0} → List (Option A) → List A
defined_tokens [] = []
defined_tokens (none ∷ xs) = defined_tokens xs
defined_tokens (some x ∷ xs) = x ∷ defined_tokens xs

-- The same tokens and the same end.
abbrev pub SameRun : {A : Type 0} → Run (Option A) → Run A → Type 0
SameRun r w = (defined_tokens r.yielded ≡ w.yielded) × (r.ending ≡ w.ending)

first_byte :
    (n : ℕ) (buf : List ℕ) → n < length buf → drop n buf ≡ get_or buf n 0 ∷ drop (suc n) buf
first_byte n [] h = absurd (omega arith)
first_byte zero (b ∷ bs) h = refl
first_byte (suc n) (b ∷ bs) h = first_byte n bs (omega arith)

SameRun-yield :
    (token : Option Token) (waited : Bool) (r : Run (Option Token)) (w : Run Token)
    → SameRun r w
    → SameRun (yield_token token waited r) (keep token w)
unfolding defined_tokens
SameRun-yield none true r w h = h
SameRun-yield none false r w h = h
SameRun-yield (some t) waited r w h = (ap (λ ts. t ∷ ts) h.0, h.1)

SameRun-token :
    (s : Parser) (r : Result (Option Token × List ColumnMetadata)) (o : Outcome (Option Token))
    (next : Parser → Run (Option Token)) (rest : List ColumnMetadata → ℕ → Run Token)
    → TokenAgrees s r o
    → ((n : ℕ) (s' : Parser)
        → After n s (with_columns s' s.columns)
        → SameRun (next s') (rest s'.columns n))
    → SameRun (after_token o next) (follow r rest)
unfolding defined_tokens
SameRun-token s (result (token, columns) n) (ok b s') next rest h k =
    rw (h.0, sym h.2) (SameRun-yield token s'.waited (next s') (rest s'.columns n) (k n s' h.1))
SameRun-token s (result (token, columns) n) (failed e) next rest h k = absurd h
SameRun-token s (result (token, columns) n) unfinished next rest h k = absurd h
SameRun-token s (thrown e) (failed x) next rest h k = (refl, ap raised h)
SameRun-token s (thrown e) (ok b s') next rest h k = absurd h
SameRun-token s (thrown e) unfinished next rest h k = absurd h
SameRun-token s (not_enough_data n) unfinished next rest h k = (refl, refl)
SameRun-token s (not_enough_data n) (ok b s') next rest h k = absurd h
SameRun-token s (not_enough_data n) (failed e) next rest h k = absurd h

-- The end is not the mark for what is outside the model.
abbrev pub EndsInModel : Ending → Type 0
EndsInModel (raised outside_model) = ⊥
EndsInModel e = Unit {0}

-- Rounds for the two loops: two for each chunk and one for each byte.
abbrev pub need : Phase → Parser → ℕ
need outer s = 2 * length s.chunks + length (view s) + 2
need inner s = 2 * length s.chunks + length (view s) + 3

-- The outer loop is entered with nothing left in the buffer.
abbrev pub IsAt : Phase → Parser → Type 0
IsAt outer s = s.position ≡ length s.buffer
IsAt inner s = IsReady s

if_true : {A : Type 0} (b : Bool) (x y : A) → b ≡ true → (if b then x else y) ≡ x
if_true b x y h = ap (λ b. if b then x else y) h

Chunks-cases : (cs : List Buffer) → (cs ≡ []) ⊎ (0 < length cs)
Chunks-cases [] = inl refl
Chunks-cases (c ∷ cs) = inr (omega arith)

same_input :
    (options : Options) (decode : Codepage → Buffer → JsString) (whole : ℕ)
    {r r' : Run (Option Token)} {columns columns' : List ColumnMetadata} {bytes bytes' : Buffer}
    → r ≡ r'
    → columns' ≡ columns
    → bytes' ≡ bytes
    → SameRun r' (tokens_of options decode whole columns' bytes')
    → SameRun r (tokens_of options decode whole columns bytes)
same_input options decode whole p q t h = rw (p, sym q, sym t) h

same_run :
    {r r' : Run (Option Token)} {w w' : Run Token} → r ≡ r' → w ≡ w' → SameRun r' w' → SameRun r w
same_run p q h = rw (p, q) h

tokens_of-cons :
    (options : Options) (decode : Codepage → Buffer → JsString) (whole : ℕ)
    (columns : List ColumnMetadata) (type : ℕ) (bytes : Buffer)
    → tokens_of options decode (suc whole) columns (type ∷ bytes)
      ≡ follow
          (whole_token options decode type columns bytes 0)
          (λ columns n. tokens_of options decode whole columns (drop n bytes))
unfolding tokens_of
tokens_of-cons options decode whole columns type bytes = refl

ended_lem :
    (options : Options) (decode : Codepage → Buffer → JsString) (whole : ℕ)
    (columns : List ColumnMetadata)
    → SameRun (stops ended) (tokens_of options decode (suc whole) columns [])
unfolding tokens_of defined_tokens
ended_lem options decode whole columns = (refl, refl)

module _ (fuel : ℕ) (options : Options) (decode : Codepage → Buffer → JsString) (rounds : ℕ)
    (s : Parser) where
  run-end :
      s.chunks ≡ []
      → s.position ≡ length s.buffer
      → run fuel options decode (suc rounds) outer s ≡ stops ended
  unfolding run
  run-end e at = rw (e, at, (==_iff (length s.buffer) (length s.buffer)).1 refl) refl

  run-wait :
      0 < length s.chunks
      → run fuel options decode (suc rounds) outer s
        ≡ run fuel options decode rounds inner (wait_for_chunk s)
  unfolding run
  run-wait h = rw (ne) refl
    where
      ne : (length s.chunks == 0) ≡ false
      ne = ground arith

  run-leave :
      length s.buffer ≤ s.position
      → run fuel options decode (suc rounds) inner s ≡ run fuel options decode rounds outer s
  unfolding run
  run-leave h = rw (leb-false (s.position + 1) (length s.buffer) (omega arith)) refl

  run-token :
      s.position < length s.buffer
      → run fuel options decode (suc rounds) inner s
        ≡ after_token
            (read_token fuel options decode (get_or s.buffer s.position 0) (begin_token s))
            (run fuel options decode rounds inner)
  unfolding run
  run-token h = if_true _ _ _ (leb-true (s.position + 1) (length s.buffer) (omega arith))

view-end : (s : Parser) → s.chunks ≡ [] → s.position ≡ length s.buffer → view s ≡ []
view-end s e at = rw (e, at, drop-length s.buffer) refl

view-begin :
    (s : Parser)
    → s.position < length s.buffer
    → view s ≡ get_or s.buffer s.position 0 ∷ view (begin_token s)
view-begin s h =
    ap (λ t. t ++ concat s.chunks) (first_byte s.position s.buffer h)
    ∙ ap (λ n. get_or s.buffer s.position 0 ∷ (drop n s.buffer ++ concat s.chunks)) next
  where
    next : suc s.position ≡ s.position + 1
    next = omega arith

module _ (fuel : ℕ) (options : Options) (decode : Codepage → Buffer → JsString) where
  run_lem :
      (rounds whole : ℕ) (phase : Phase) (s : Parser)
      → IsAt phase s
      → length s.chunks ≤ fuel
      → need phase s ≤ rounds
      → length (view s) < whole
      → SameRun
          (run fuel options decode rounds phase s)
          (tokens_of options decode whole s.columns (view s))
  run_lem zero whole outer s at few enough more = absurd (omega arith)
  run_lem zero whole inner s at few enough more = absurd (omega arith)
  run_lem rounds zero phase s at few enough more = absurd (omega arith)
  run_lem (suc rounds) (suc whole) outer s at few enough more = elim (Chunks-cases s.chunks) [
    | inl none_left ↦
        rw (run-end fuel options decode rounds s none_left at, view-end s none_left at)
          (ended_lem options decode whole s.columns)
    | inr some_left ↦
        same_input options decode (suc whole) (run-wait fuel options decode rounds s some_left)
          (wait-columns s) (wait-view s)
          (run_lem rounds (suc whole) inner (wait_for_chunk s) (wait-IsReady s (omega arith))
            (omega (arith, wait-fewer s)) (omega (arith, wait-fewer s, ap length (wait-view s)))
            (omega (arith, ap length (wait-view s))))
  ]
  run_lem (suc rounds) (suc whole) inner s at few enough more =
      elim (le_or_lt (length s.buffer) s.position) [
        | inl past ↦
            rw (run-leave fuel options decode rounds s past)
              (run_lem rounds (suc whole) outer s (omega arith) few (omega arith) more)
        | inr left ↦
            same_run (run-token fuel options decode rounds s left)
              (ap (tokens_of options decode (suc whole) s.columns) (view-begin s left)
                ∙ tokens_of-cons options decode whole s.columns _ _)
              (SameRun-token (begin_token s) _ _ _ _
                (read_token_lem fuel options decode (get_or s.buffer s.position 0) (begin_token s)
                  (omega arith) few)
                λ n s' a. same_input options decode whole refl refl a.rest (
                  run_lem rounds whole inner s' a.ready (omega (arith, a.fewer))
                    (omega (
                      arith,
                      a.fewer,
                      a.enough,
                      ap length a.rest,
                      length-drop n (view (begin_token s)),
                      ap length (view-begin s left),
                    ))
                    (omega (
                      arith,
                      a.enough,
                      ap length a.rest,
                      length-drop n (view (begin_token s)),
                      ap length (view-begin s left),
                    ))))
      ]

  -- With retries for each chunk, with two rounds for each chunk, one for each byte and two more, and where the bytes hold
  -- no sql_variant of a length less than that of its head: the tokens that parseTokens makes of
  -- chunks are those that all their bytes hold, in the same order and with the same end. Yields of
  -- undefined are not counted.
  pub parse_tokens_lem :
      (rounds : ℕ) (chunks : List Buffer) (columns : List ColumnMetadata)
      → length chunks ≤ fuel
      → 2 * length chunks + length (concat chunks) + 2 ≤ rounds
      → EndsInModel
          (tokens_of options decode (suc (length (concat chunks))) columns (concat chunks)).ending
      → SameRun
          (parse_tokens fuel options decode rounds chunks columns)
          (tokens_of options decode (suc (length (concat chunks))) columns (concat chunks))
  unfolding parse_tokens new_parser
  parse_tokens_lem rounds chunks columns few enough inside =
      run_lem rounds (suc (length (concat chunks))) outer (new_parser chunks columns) refl few
        enough (omega arith)

  -- Under the same conditions on both sides, two ways to cut the same bytes into chunks give the
  -- same tokens and the same end. Yields of undefined are not counted.
  pub parse_tokens_rechunk :
      (rounds rounds' : ℕ) (chunks chunks' : List Buffer) (columns : List ColumnMetadata)
      → concat chunks ≡ concat chunks'
      → length chunks ≤ fuel
      → length chunks' ≤ fuel
      → 2 * length chunks + length (concat chunks) + 2 ≤ rounds
      → 2 * length chunks' + length (concat chunks') + 2 ≤ rounds'
      → EndsInModel
          (tokens_of options decode (suc (length (concat chunks))) columns (concat chunks)).ending
      → (defined_tokens (parse_tokens fuel options decode rounds chunks columns).yielded
          ≡ defined_tokens (parse_tokens fuel options decode rounds' chunks' columns).yielded)
        × ((parse_tokens fuel options decode rounds chunks columns).ending
            ≡ (parse_tokens fuel options decode rounds' chunks' columns).ending)
  parse_tokens_rechunk rounds rounds' chunks chunks' columns e few few' enough enough' inside =
      (tokens.0 ∙ sym tokens'.0, tokens.1 ∙ sym tokens'.1)
    where
      spec : List ℕ → Run Token
      spec bytes = tokens_of options decode (suc (length bytes)) columns bytes

      tokens :
          SameRun (parse_tokens fuel options decode rounds chunks columns) (spec (concat chunks'))
      tokens = rw e at (parse_tokens_lem rounds chunks columns few enough inside)

      tokens' :
          SameRun (parse_tokens fuel options decode rounds' chunks' columns) (spec (concat chunks'))
      tokens' = parse_tokens_lem rounds' chunks' columns few' enough' (rw e at inside)
