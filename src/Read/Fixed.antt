-- ===== src/Read/Fixed.antt =====
-- The steps of the readers of lib/token/helpers.js on a buffer that grows: the length check, the slice
-- behind it, Node's own reads, and the fixed-width readers.
use mathlib.Core.Path.{subst}
use native.Mathlib.Nat.{add_assoc}
use tedious.Prelude.{ℕ, ◌+◌, ◌-◌, ◌≤◌, ◌<◌, ◌≡◌, refl, fun_ext, inl, inr, ap, ◌++◌, arith}
use tedious.Prelude.{Option, none, some, ltb-true, ltb-false, length, length-append, le_or_lt}
use tedious.Buffer.{Buffer, slice, read_at}
use tedious.Buffer.Window.{slice-append, slice-shift}
use tedious.Read.{
  Result, result, not_enough_data, thrown, Read, pure, throw, continue, ◌>>=◌, require, advance,
  node, node_read, fixed, range_error,
}
use tedious.Read.Stable.{IsStable, pure-IsStable, throw-IsStable}

pub require_long :
    (k : ℕ) (buf : Buffer) (offset : ℕ)
    → offset + k ≤ length buf
    → require k buf offset ≡ result tt offset
unfolding require
require_long k buf offset h = rw (ltb-false _ _ h)

pub require_short :
    (k : ℕ) (buf : Buffer) (offset : ℕ)
    → length buf < offset + k
    → require k buf offset ≡ not_enough_data (offset + k)
unfolding require
require_short k buf offset h = rw (ltb-true _ _ h)

pub node_read_long :
    {A : Type 0} (w : ℕ) (decode : Buffer → A) (buf : Buffer) (offset : ℕ)
    → offset + w ≤ length buf
    → node_read w decode buf offset ≡ result (decode (slice buf offset (offset + w))) (offset + w)
unfolding node_read read_at
node_read_long w decode buf offset h = rw (ltb-false _ _ h, node_read)

pub node_read_short :
    {A : Type 0} (w : ℕ) (decode : Buffer → A) (buf : Buffer) (offset : ℕ)
    → length buf < offset + w
    → node_read w decode buf offset ≡ thrown range_error
unfolding node_read read_at
node_read_short w decode buf offset h = rw (ltb-true _ _ h, node_read)

module _ {B : Type 0} where
  -- After its check, `require k` hands `k` bytes to what follows.
  pub require-IsStable :
      {n : ℕ} (k : ℕ) (p : Read B) → IsStable k p → IsStable n (require k >>= λ _. p)
  unfolding ◌>>=◌
  require-IsStable k p hp = record {
    shift = λ front buf offset. elim (le_or_lt (offset + k) (length buf)) [
      | inl long ↦
          rw
            (
              require_long k (front ++ buf) (length front + offset)
                  (omega (arith, length-append front buf)),
              require_long k buf offset long,
            )
            (hp.shift front buf offset)
      | inr short ↦
          rw
            (
              require_short k (front ++ buf) (length front + offset)
                  (omega (arith, length-append front buf)),
              require_short k buf offset short,
            )
            (ap not_enough_data (add_assoc (length front) offset k))
    ];
    settled = λ buf more offset _. elim (le_or_lt (offset + k) (length buf)) [
      | inl long ↦
          rw
            (
              require_long k (buf ++ more) offset (omega (arith, length-append buf more)),
              require_long k buf offset long,
            )
            (hp.settled buf more offset long)
      | inr short ↦ rw (require_short k buf offset short) tt
    ];
    bounded = λ buf offset b end _ e. elim (le_or_lt (offset + k) (length buf)) [
      | inl long ↦ hp.bounded buf offset b end long (rw (require_long k buf offset long) at e)
      | inr short ↦ absurd (not_enough_ne_result (rw (require_short k buf offset short) at e))
    ];
  }
    where
      not_enough_ne_result : {m o : ℕ} {b : B} → not_enough_data m ≡ result b o → ⊥
      not_enough_ne_result e = cc

  pub advance-bind-IsStable :
      {n : ℕ} (w : ℕ) (f : Buffer → Read B)
      → w ≤ n
      → ((a : Buffer) → IsStable (n - w) (f a))
      → IsStable n (advance w >>= f)
  unfolding ◌>>=◌ advance
  advance-bind-IsStable w f hw hf = record {
    shift = λ front buf offset.
        rw (slice-shift front buf offset w, add_assoc (length front) offset w)
          ((hf (slice buf offset (offset + w))).shift front buf (offset + w));
    settled = λ buf more offset h.
        rw (slice-append buf more offset w (omega arith))
          ((hf (slice buf offset (offset + w))).settled buf more (offset + w) (omega arith));
    bounded = λ buf offset b end h e.
        (hf (slice buf offset (offset + w))).bounded buf (offset + w) b end (omega arith) e;
  }

module _ {A B : Type 0} where
  pub node_read-bind-IsStable :
      {n : ℕ} (w : ℕ) (decode : Buffer → A) (f : A → Read B)
      → w ≤ n
      → ((a : A) → IsStable (n - w) (f a))
      → IsStable n (node_read w decode >>= f)
  unfolding ◌>>=◌
  node_read-bind-IsStable w decode f hw hf = record {
    shift = λ front buf offset. elim (le_or_lt (offset + w) (length buf)) [
      | inl long ↦
          rw
            (
              node_read_long w decode (front ++ buf) (length front + offset)
                  (omega (arith, length-append front buf)),
              node_read_long w decode buf offset long,
              slice-shift front buf offset w,
              add_assoc (length front) offset w,
            )
            ((hf (decode (slice buf offset (offset + w)))).shift front buf (offset + w))
      | inr short ↦ rw (
        node_read_short w decode (front ++ buf) (length front + offset)
            (omega (arith, length-append front buf)),
        node_read_short w decode buf offset short,
      )
    ];
    settled = λ buf more offset h.
        rw
          (
            node_read_long w decode buf offset (omega arith),
            node_read_long w decode (buf ++ more) offset (omega (arith, length-append buf more)),
            slice-append buf more offset w (omega arith),
          )
          ((hf (decode (slice buf offset (offset + w)))).settled buf more (offset + w)
            (omega arith));
    bounded = λ buf offset b end h e.
        (hf (decode (slice buf offset (offset + w)))).bounded buf (offset + w) b end (omega arith)
          (rw (node_read_long w decode buf offset (omega arith)) at e);
  }

module _ {A : Type 0} where
  continue-pure : (r : Result A) (buf : Buffer) → continue r pure buf ≡ r
  unfolding pure
  continue-pure (result a o) buf = refl
  continue-pure (not_enough_data n) buf = refl
  continue-pure (thrown e) buf = refl

  bind-pure : (m : Read A) → (m >>= pure) ≡ m
  unfolding ◌>>=◌
  bind-pure m = fun_ext λ buf. fun_ext λ offset. continue-pure (m buf offset) buf

  pub node_read-IsStable :
      {n : ℕ} (w : ℕ) (decode : Buffer → A) → w ≤ n → IsStable n (node_read w decode)
  node_read-IsStable {n} w decode h =
      subst (IsStable n) (bind-pure _) (node_read-bind-IsStable w decode pure h pure-IsStable)

  pub fixed-IsStable : {n : ℕ} (w : ℕ) (decode : Buffer → A) → IsStable n (fixed w decode)
  unfolding fixed
  fixed-IsStable w decode = require-IsStable w _ (node_read-IsStable w decode (omega arith))

  -- A call of Node on bytes that are at hand gives the same answer later.
  pub node-IsStable : {n : ℕ} (o : Option A) → IsStable n (node o)
  unfolding node
  node-IsStable none = unfold throw in throw-IsStable range_error
  node-IsStable (some a) = unfold pure in pure-IsStable a

pub advance-IsStable : {n : ℕ} (w : ℕ) → w ≤ n → IsStable n (advance w)
advance-IsStable {n} w h =
    subst (IsStable n) (bind-pure _) (advance-bind-IsStable w pure h pure-IsStable)
