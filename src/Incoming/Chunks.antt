-- ===== src/Incoming/Chunks.antt =====
-- The loop of lib/incoming-message-stream.js on chunks and on all of their bytes.
use tedious.Prelude.{ℕ, zero, suc, ◌<◌, ◌≡◌, ◌≢◌, refl, sym, ap, ◌∙◌}
use tedious.Prelude.{
  List, [], ◌∷◌, ◌++◌, append-nil, append_assoc, arith, length, length-append, concat,
}
use tedious.Buffer.{Buffer}
use tedious.Incoming.{
  Incoming, new_incoming, Step, waiting, failed, crashed, consumed, step, Outcome, ready, rejected,
  thrown, out_of_fuel, process, transform, and_then, receive,
}
use tedious.Incoming.Steps.{extend, Round, waits, fails, takes, rounds}

abbrev pub continue : ℕ → Incoming → Step → Outcome
continue fuel s waiting = ready s
continue fuel s failed = rejected
continue fuel s crashed = thrown
continue fuel s (consumed t) = process fuel t

pub process-suc : (fuel : ℕ) (s : Incoming) → process (suc fuel) s ≡ continue fuel s (step s)
unfolding process
process-suc fuel s = by_step (step s)
  where
    by_step :
        (r : Step)
        → (elim r as (λ _. Outcome) [
          | waiting ↦ ready s
          | failed ↦ rejected
          | crashed ↦ thrown
          | consumed t ↦ process fuel t
        ])
          ≡ continue fuel s r
    by_step waiting = refl
    by_step failed = refl
    by_step crashed = refl
    by_step (consumed t) = refl

-- More fuel than bytes is enough, and any more changes nothing.
pub process_fuel :
    (f g : ℕ) (s : Incoming) → length s.bl < f → length s.bl < g → process f s ≡ process g s
process_fuel zero g s hf hg = absurd (omega arith)
process_fuel (suc f) zero s hf hg = absurd (omega arith)
process_fuel (suc f) (suc g) s hf hg =
    process-suc f s
    ∙ by_round (λ t h. process_fuel f g t (omega arith) (omega arith)) (rounds s)
    ∙ sym (process-suc g s)
  where
    by_round :
        ((t : Incoming) → length t.bl < length s.bl → process f t ≡ process g t)
        → {r : Step} → Round s r
        → continue f s r ≡ continue g s r
    by_round again waits = refl
    by_round again (fails _) = refl
    by_round again (takes t h _) = again t h

-- The loop on what is buffered.
abbrev pub run : Incoming → Outcome
run s = process (suc (length s.bl)) s

-- What an outcome of the loop may be: an idle stream, on which the loop does nothing, or the error.
data Settled : Outcome → Type 0 where
  idle : (t : Incoming) → run t ≡ ready t → Settled (ready t)
  refused : Settled rejected

settled : (f : ℕ) (s : Incoming) → length s.bl < f → Settled (process f s)
settled zero s h = absurd (omega arith)
settled (suc f) s h =
    rw (process-suc f s) (by_round (λ t g. settled f t (omega arith)) refl (rounds s))
  where
    by_round :
        ((t : Incoming) → length t.bl < length s.bl → Settled (process f t))
        → {r : Step} → step s ≡ r
        → Round s r
        → Settled (continue f s r)
    by_round again e waits = idle s (process-suc (length s.bl) s ∙ ap (continue (length s.bl) s) e)
    by_round again e (fails _) = refused
    by_round again e (takes t h _) = again t h

-- Processing what is there and then the rest is processing all of it.
process-extend :
    (f : ℕ) (s : Incoming) (more : Buffer)
    → length s.bl < f
    → and_then (process f s) (λ t. run (extend t more)) ≡ run (extend s more)
process-extend zero s more h = absurd (omega arith)
process-extend (suc f) s more h =
    ap (λ o. and_then o (λ t. run (extend t more))) (process-suc f s)
    ∙ by_round (λ t g. process-extend f t more (omega arith)) (rounds s)
  where
    whole :
        run (extend s more)
        ≡ continue (length (s.bl ++ more)) (extend s more) (step (extend s more))
    whole = process-suc (length (s.bl ++ more)) (extend s more)

    by_round :
        ((t : Incoming)
          → length t.bl < length s.bl
          → and_then (process f t) (λ u. run (extend u more)) ≡ run (extend t more))
        → {r : Step} → Round s r
        → and_then (continue f s r) (λ t. run (extend t more)) ≡ run (extend s more)
    by_round again waits = refl
    by_round again (fails e) =
        sym (whole ∙ ap (continue (length (s.bl ++ more)) (extend s more)) (e more))
    by_round again (takes t g e) =
        again t g
        ∙ sym (
            whole
            ∙ ap (continue (length (s.bl ++ more)) (extend s more)) (e more)
            ∙ process_fuel (length (s.bl ++ more)) (suc (length (t.bl ++ more))) (extend t more)
                (omega (arith, length-append s.bl more, length-append t.bl more)) (omega arith))

-- A stream between two chunks.
abbrev pub IsIdle : Incoming → Type 0
IsIdle s = run s ≡ ready s

pub new_incoming-IsIdle : IsIdle new_incoming
unfolding process step
new_incoming-IsIdle = refl

and_then-Settled :
    {o : Outcome} (f g : Incoming → Outcome)
    → Settled o
    → ((t : Incoming) → IsIdle t → f t ≡ g t)
    → and_then o f ≡ and_then o g
and_then-Settled f g (idle t e) h = h t e
and_then-Settled f g refused h = refl

-- From a stream that is between chunks, receiving chunks one by one comes to the same messages, the
-- same buffered rest or the same error as processing all their bytes at once.
pub receive-concat :
    (cs : List Buffer) (s : Incoming) → IsIdle s → receive cs s ≡ run (extend s (concat cs))
unfolding receive transform
receive-concat [] s h = sym (ap (λ b. run (record s { bl = b })) (append-nil s.bl) ∙ h)
receive-concat (c ∷ cs) s h =
    and_then-Settled (receive cs) (λ t. run (extend t (concat cs)))
      (settled (suc (length (s.bl ++ c))) (extend s c) (omega arith)) (λ t e. receive-concat cs t e)
    ∙ process-extend (suc (length (s.bl ++ c))) (extend s c) (concat cs) (omega arith)
    ∙ ap (λ b. run (record s { bl = b })) (append_assoc s.bl c (concat cs))

-- For a stream that is between chunks, two ways to cut the same bytes into chunks lead to the same
-- outcome.
pub receive_rechunk :
    (cs ds : List Buffer) (s : Incoming)
    → IsIdle s
    → concat cs ≡ concat ds
    → receive cs s ≡ receive ds s
receive_rechunk cs ds s h e =
    receive-concat cs s h ∙ ap (λ b. run (extend s b)) e ∙ sym (receive-concat ds s h)

Settled-cases : {o : Outcome} → Settled o → (o ≢ out_of_fuel) × (o ≢ thrown)
Settled-cases (idle t e) = (λ p. cc, λ p. cc)
Settled-cases refused = (λ p. cc, λ p. cc)

-- On a stream that is between chunks, receiving any bytes ends, and throws no RangeError.
pub receive_total :
    (cs : List Buffer) (s : Incoming)
    → IsIdle s
    → (receive cs s ≢ out_of_fuel) × (receive cs s ≢ thrown)
receive_total cs s h =
    rw (receive-concat cs s h) (Settled-cases (settled _ (extend s (concat cs)) (omega arith)))
