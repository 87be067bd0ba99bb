-- ===== src/StreamParser/Refine.antt =====
-- A reader with retries next to the same reader on all the bytes that are still to come.
use native.Mathlib.Nat.{add-zero}
use tedious.Prelude.{
  ℕ, zero, suc, ◌+◌, ◌-◌, ◌≤◌, ◌≡◌, refl, sym, ap, ◌∙◌, Bool, true, false, List, [], ◌∷◌, ◌++◌,
  arith,
}
use tedious.Prelude.{
  length, length-append, length-take, length-drop, take, drop, concat, take-append-drop,
  drop-append, drop-drop, drop-length, append-nil, append_assoc,
}
use tedious.Prelude.{==_iff, if◌then◌else◌}
use tedious.Buffer.{Buffer}
use tedious.Read.{Read, Result, result, not_enough_data, thrown, pure, ◌>>=◌, continue}
use tedious.Read.Stable.{IsStable, Settles, moved}
use tedious.StreamParser.{
  Parser, Outcome, ok, failed, unfinished, wait_for_chunk, take_chunk, at_position, and_then,
}
use tedious.StreamParser.Wait.{retry, settle}

-- The bytes that are not consumed.
abbrev pub view : Parser → Buffer
view s = drop s.position s.buffer ++ concat s.chunks

abbrev pub IsReady : Parser → Type 0
IsReady s = s.position ≤ length s.buffer

-- `s'` is `s` with `n` bytes consumed.
pub record After (n : ℕ) (s s' : Parser) : Type 0 where
  pub enough : n ≤ length (view s)
  pub rest : view s' ≡ drop n (view s)
  pub ready : IsReady s'
  pub fewer : length s'.chunks ≤ length s.chunks
  pub columns : s'.columns ≡ s.columns

abbrev pub Agrees : {A : Type 0} → Parser → Result A → Outcome A → Type 0
Agrees s (result a n) (ok b s') = (b ≡ a) × After n s s'
Agrees s (thrown e) (failed x) = x ≡ e
Agrees s (not_enough_data n) unfinished = Unit {0}
Agrees s r o = ⊥

-- `run` does on any chunks what `p` does on all the bytes at once.
unfoldable pub Implements : {A : Type 0} → ℕ → Read A → (Parser → Outcome A) → Type 0
Implements fuel p run =
    (s : Parser) → IsReady s → length s.chunks ≤ fuel → Agrees s (p (view s) 0) (run s)

joined :
    (b : Bool) (position : ℕ) (buf chunk rest : Buffer)
    → (b ≡ true → position ≡ length buf)
    → (if b then chunk else drop position buf ++ chunk) ++ rest
      ≡ drop position buf ++ (chunk ++ rest)
joined true position buf chunk rest h = rw (h refl, drop-length buf) refl
joined false position buf chunk rest h = append_assoc (drop position buf) chunk rest

-- waitForChunk neither loses nor repeats a byte.
pub wait-view : (s : Parser) → view (wait_for_chunk s) ≡ view s
unfolding wait_for_chunk
wait-view s = cases s.chunks
  where
    cases : (cs : List Buffer) → view (take_chunk s cs) ≡ drop s.position s.buffer ++ concat cs
    cases [] = refl
    cases (c ∷ cs) = joined _ s.position s.buffer c (concat cs) (λ e. (==_iff _ _).0 e)

pub wait-IsReady : (s : Parser) → IsReady s → IsReady (wait_for_chunk s)
unfolding wait_for_chunk
wait-IsReady s h = cases s.chunks
  where
    cases : (cs : List Buffer) → IsReady (take_chunk s cs)
    cases [] = h
    cases (c ∷ cs) = omega arith

pub wait-columns : (s : Parser) → (wait_for_chunk s).columns ≡ s.columns
unfolding wait_for_chunk
wait-columns s = cases s.chunks
  where
    cases : (cs : List Buffer) → (take_chunk s cs).columns ≡ s.columns
    cases [] = refl
    cases (c ∷ cs) = refl

pub wait-fewer : (s : Parser) → length (wait_for_chunk s).chunks ≡ length s.chunks - 1
unfolding wait_for_chunk
wait-fewer s = cases s.chunks
  where
    cases : (cs : List Buffer) → length (take_chunk s cs).chunks ≡ length cs - 1
    cases [] = refl
    cases (c ∷ cs) = omega arith

After-wait : {n : ℕ} {s s' : Parser} → After n (wait_for_chunk s) s' → After n s s'
After-wait {n} {s} a = record {
  enough = rw (wait-view s) at a.enough;
  rest = a.rest ∙ ap (drop n) (wait-view s);
  ready = a.ready;
  fewer = omega (arith, a.fewer, wait-fewer s);
  columns = a.columns ∙ wait-columns s;
}

module _ {A : Type 0} where
  Agrees-wait :
      (s : Parser) (r : Result A) (o : Outcome A) → Agrees (wait_for_chunk s) r o → Agrees s r o
  Agrees-wait s (result a n) (ok b s') h = (h.0, After-wait h.1)
  Agrees-wait s (result a n) (failed e) h = h
  Agrees-wait s (result a n) unfinished h = h
  Agrees-wait s (thrown e) (failed x) h = h
  Agrees-wait s (thrown e) (ok b s') h = h
  Agrees-wait s (thrown e) unfinished h = h
  Agrees-wait s (not_enough_data n) unfinished h = h
  Agrees-wait s (not_enough_data n) (ok b s') h = h
  Agrees-wait s (not_enough_data n) (failed e) h = h

  -- Reading behind the first `k` bytes.
  drop-shift :
      {p : Read A}
      → IsStable 0 p
      → (buf : Buffer) (k o : ℕ) → k ≤ length buf
      → p buf (k + o) ≡ moved k (p (drop k buf) o)
  drop-shift {p} stable buf k o h =
      rw (take-append-drop k buf, front) at (stable.shift (take k buf) (drop k buf) o)
    where
      front : length (take k buf) ≡ k
      front = omega (arith, length-take k buf)

  -- A first call on the bytes at hand, with `again` for what follows a wait.
  Agrees-settle :
      (p : Read A)
      → IsStable 0 p
      → (s : Parser) (again : Outcome A) → IsReady s
      → ((n : ℕ)
          → p (drop s.position s.buffer) 0 ≡ not_enough_data n
          → Agrees s (p (view s) 0) again)
      → Agrees s (p (view s) 0) (settle (p s.buffer s.position) s again)
  Agrees-settle p stable s again ready later = rw (at_hand) (
      cases (p here 0) (p (view s) 0) refl (stable.settled here (concat s.chunks) 0 (omega arith))
        later)
    where
      here : Buffer
      here = drop s.position s.buffer

      at_hand : p s.buffer s.position ≡ moved s.position (p here 0)
      at_hand = ap (p s.buffer) (omega arith) ∙ drop-shift stable s.buffer s.position 0 ready

      after : (n : ℕ) → n ≤ length here → After n s (at_position s (s.position + n))
      after n h = record {
        enough = omega (arith, length-append here (concat s.chunks));
        rest =
            ap (λ t. t ++ concat s.chunks) (sym (drop-drop n s.position s.buffer))
            ∙ sym (drop-append n here (concat s.chunks) h);
        ready = omega (arith, length-drop s.position s.buffer);
        fewer = omega arith;
        columns = refl;
      }

      cases :
          (r v : Result A)
          → p here 0 ≡ r
          → Settles r v
          → ((n : ℕ) → r ≡ not_enough_data n → Agrees s v again)
          → Agrees s v (settle (moved s.position r) s again)
      cases (result a n) v e h k = rw h (refl, after n (stable.bounded here 0 a n (omega arith) e))
      cases (thrown x) v e h k = rw h refl
      cases (not_enough_data n) v e h k = k n refl

  Agrees-unfinished :
      (s : Parser) (p : Read A)
      → IsStable 0 p
      → s.chunks ≡ []
      → (n : ℕ) → p (drop s.position s.buffer) 0 ≡ not_enough_data n
      → Agrees s (p (view s) 0) unfinished
  Agrees-unfinished s p stable empty n e = rw (empty, append-nil (drop s.position s.buffer), e) tt

  -- Reading with retries, with fuel for every chunk, implements a stable reader.
  pub retry-Implements : (fuel : ℕ) (p : Read A) → IsStable 0 p → Implements fuel p (retry fuel p)
  unfolding Implements retry
  retry-Implements zero p stable s ready h =
      Agrees-settle p stable s unfinished ready (Agrees-unfinished s p stable (empty s.chunks h))
    where
      empty : (cs : List Buffer) → length cs ≤ 0 → cs ≡ []
      empty [] h = refl
      empty (c ∷ cs) h = absurd (omega arith)
  retry-Implements (suc fuel) p stable s ready h =
      Agrees-settle p stable s (retry fuel p (wait_for_chunk s)) ready λ n e.
        Agrees-wait s (p (view s) 0) (retry fuel p (wait_for_chunk s)) (
          rw (wait-view s) at (
            retry-Implements fuel p stable (wait_for_chunk s) (wait-IsReady s ready)
              (omega (arith, wait-fewer s))))

module _ {A : Type 0} where
  -- A value that needs no byte.
  pub ok-Implements : (fuel : ℕ) (a : A) → Implements fuel (pure a) (ok a)
  unfolding Implements pure
  ok-Implements fuel a s ready h = (
    refl,
    record {
      enough = omega arith;
      rest = refl;
      ready = ready;
      fewer = omega arith;
      columns = refl;
    },
  )

After-trans : {m n : ℕ} {s s' s'' : Parser} → After m s s' → After n s' s'' → After (m + n) s s''
After-trans {m} {n} {s} {s'} a b = record {
  enough = omega (arith, a.enough, b.enough, ap length a.rest, length-drop m (view s));
  rest = b.rest ∙ ap (drop n) a.rest ∙ drop-drop n m (view s);
  ready = b.ready;
  fewer = omega (arith, a.fewer, b.fewer);
  columns = b.columns ∙ a.columns;
}

module _ {B : Type 0} where
  Agrees-later :
      {m : ℕ} {s s' : Parser}
      → After m s s'
      → (r : Result B) (o : Outcome B) → Agrees s' r o
      → Agrees s (moved m r) o
  Agrees-later a (result b n) (ok c s'') h = (h.0, After-trans a h.1)
  Agrees-later a (result b n) (failed e) h = h
  Agrees-later a (result b n) unfinished h = h
  Agrees-later a (thrown e) (failed x) h = h
  Agrees-later a (thrown e) (ok b s'') h = h
  Agrees-later a (thrown e) unfinished h = h
  Agrees-later a (not_enough_data n) unfinished h = h
  Agrees-later a (not_enough_data n) (ok b s'') h = h
  Agrees-later a (not_enough_data n) (failed e) h = h

module _ {A B : Type 0} where
  -- Two readings one after the other, each with its own retries, implement `do`.
  pub bind-Implements :
      (fuel : ℕ) (p : Read A) (f : A → Read B) (run : Parser → Outcome A)
      (next : A → Parser → Outcome B)
      → Implements fuel p run
      → ((a : A) → IsStable 0 (f a))
      → ((a : A) → Implements fuel (f a) (next a))
      → Implements fuel (p >>= f) (λ s. and_then (run s) next)
  unfolding Implements ◌>>=◌
  bind-Implements fuel p f run next first stable second s ready h =
      cases (p (view s) 0) (run s) (first s ready h)
    where
      cases :
          (r : Result A) (o : Outcome A)
          → Agrees s r o
          → Agrees s (continue r f (view s)) (and_then o next)
      cases (result a n) (ok b s') g =
          rw (g.0, sym (add-zero n), drop-shift (stable a) (view s) n 0 g.1.enough)
            (Agrees-later g.1 (f a (drop n (view s)) 0) (next a s')
              (rw g.1.rest at (second a s' g.1.ready (omega (arith, g.1.fewer)))))
      cases (result a n) (failed e) h = absurd h
      cases (result a n) unfinished h = absurd h
      cases (thrown e) (failed x) h = h
      cases (thrown e) (ok b s') h = absurd h
      cases (thrown e) unfinished h = absurd h
      cases (not_enough_data n) unfinished h = h
      cases (not_enough_data n) (ok b s') h = absurd h
      cases (not_enough_data n) (failed e) h = absurd h
