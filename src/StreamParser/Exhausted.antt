-- ===== src/StreamParser/Exhausted.antt =====
-- The chunks have ended and a token is not complete: waitForChunk returns -1, which the callers in
-- lib/token/stream-parser.js do not look at, and the token is read again.
use tedious.Prelude.{ℕ, zero, suc, ◌≡◌, refl, ap, ◌∙◌, []}
use tedious.Read.{Read, not_enough_data}
use tedious.StreamParser.{Parser, unfinished, wait_for_chunk, take_chunk}
use tedious.StreamParser.Wait.{retry, settle}

wait-exhausted : (s : Parser) → s.chunks ≡ [] → wait_for_chunk s ≡ take_chunk s []
unfolding wait_for_chunk
wait-exhausted s e = ap (take_chunk s) e

-- When no chunk is left and a reader asks for more data, reading with retries does not end: for every
-- number of retries the outcome is that the loop is not finished.
pub retry-exhausted :
    {A : Type 0} (fuel : ℕ) (p : Read A) (s : Parser) (n : ℕ)
    → s.chunks ≡ []
    → p s.buffer s.position ≡ not_enough_data n
    → retry fuel p s ≡ unfinished
unfolding retry
retry-exhausted zero p s n none_left short = ap (λ r. settle r s unfinished) short
retry-exhausted (suc fuel) p s n none_left short =
    ap (λ r. settle r s (retry fuel p (wait_for_chunk s))) short
    ∙ ap (retry fuel p) (wait-exhausted s none_left)
    ∙ retry-exhausted fuel p (take_chunk s []) n refl short
