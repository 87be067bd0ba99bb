-- ===== src/Read/Stable.antt =====
-- What a reader must keep to so that it may run on a buffer that grows: moving the buffer moves
-- the offsets along, bytes that arrive later change no answer but NotEnoughDataError, and the
-- offset stays inside.
use tedious.Prelude.{ℕ, ◌+◌, ◌≤◌, ◌≡◌, refl, Bool, true, false, ◌++◌, arith}
use tedious.Prelude.{length, if◌then◌else◌}
use tedious.Buffer.{Buffer}
use tedious.Read.{
  Result, result, not_enough_data, thrown, Read, pure, throw, continue, ◌>>=◌, Error,
}

-- The same answer with every offset moved by `k`.
abbrev pub moved : {A : Type 0} → ℕ → Result A → Result A
moved k (result a offset) = result a (k + offset)
moved k (not_enough_data n) = not_enough_data (k + n)
moved k (thrown e) = thrown e

-- `s` is the answer `r`, unless `r` asks for more data.
abbrev pub Settles : {A : Type 0} → Result A → Result A → Type 0
Settles (result a offset) s = s ≡ result a offset
Settles (not_enough_data n) s = Unit {0}
Settles (thrown e) s = s ≡ thrown e

-- Where at least `n` bytes are at hand.
pub record IsStable {A : Type 0} (n : ℕ) (p : Read A) : Type 0 where
  pub shift :
      (front buf : Buffer) (offset : ℕ)
      → p (front ++ buf) (length front + offset) ≡ moved (length front) (p buf offset)
  pub settled :
      (buf more : Buffer) (offset : ℕ)
      → offset + n ≤ length buf
      → Settles (p buf offset) (p (buf ++ more) offset)
  pub bounded :
      (buf : Buffer) (offset : ℕ) (a : A) (end : ℕ)
      → offset + n ≤ length buf
      → p buf offset ≡ result a end
      → end ≤ length buf

module _ {A : Type 0} where
  pub result-injective : {a b : A} {m n : ℕ} → result a m ≡ result b n → m ≡ n
  result-injective e = cc

  Settles-refl : (r : Result A) → Settles r r
  Settles-refl (result a n) = refl
  Settles-refl (not_enough_data n) = tt
  Settles-refl (thrown e) = refl

  pub pure-IsStable : {n : ℕ} (a : A) → IsStable n (pure a)
  unfolding pure
  pure-IsStable a = record {
    shift = λ front buf offset. refl;
    settled = λ buf more offset h. refl;
    bounded = λ buf offset b end h e. omega (arith, result-injective e);
  }

  pub throw-IsStable : {n : ℕ} (e : Error) → IsStable n (throw {A = A} e)
  unfolding throw
  throw-IsStable e = record {
    shift = λ front buf offset. refl;
    settled = λ buf more offset h. refl;
    bounded = λ buf offset b end h x. cc;
  }

  pub weaken : {n : ℕ} {p : Read A} → IsStable 0 p → IsStable n p
  weaken s = record {
    shift = s.shift;
    settled = λ buf more offset h. s.settled buf more offset (omega arith);
    bounded = λ buf offset b end h e. s.bounded buf offset b end (omega arith) e;
  }

  pub if-IsStable :
      {n : ℕ} (b : Bool) (p q : Read A)
      → IsStable n p
      → IsStable n q
      → IsStable n (if b then p else q)
  if-IsStable true p q hp hq = hp
  if-IsStable false p q hp hq = hq

module _ {A B : Type 0} where
  moved-continue :
      (r : Result A) (f : A → Read B) (front buf : Buffer)
      → ((a : A) (offset : ℕ)
          → f a (front ++ buf) (length front + offset) ≡ moved (length front) (f a buf offset))
      → continue (moved (length front) r) f (front ++ buf) ≡ moved (length front) (continue r f buf)
  moved-continue (result a o) f front buf h = h a o
  moved-continue (not_enough_data n) f front buf h = refl
  moved-continue (thrown e) f front buf h = refl

  Settles-continue :
      (r s : Result A) (f : A → Read B) (buf more : Buffer)
      → Settles r s
      → ((a : A) (o : ℕ) → r ≡ result a o → Settles (f a buf o) (f a (buf ++ more) o))
      → Settles (continue r f buf) (continue s f (buf ++ more))
  Settles-continue (result a o) s f buf more h k = rw h (k a o refl)
  Settles-continue (not_enough_data n) s f buf more h k = tt
  Settles-continue (thrown e) s f buf more h k = rw h

  bounded_continue :
      (r : Result A) (f : A → Read B) (buf : Buffer) (b : B) (end : ℕ)
      → ((a : A) (o : ℕ) → r ≡ result a o → f a buf o ≡ result b end → end ≤ length buf)
      → continue r f buf ≡ result b end
      → end ≤ length buf
  bounded_continue (result a o) f buf b end k e = k a o refl e
  bounded_continue (not_enough_data n) f buf b end k e = cc
  bounded_continue (thrown x) f buf b end k e = cc

  -- The rule of `do`: the bytes known to be at hand are at the disposal of the first step.
  pub bind-IsStable :
      {n : ℕ} (m : Read A) (f : A → Read B)
      → IsStable n m
      → ((a : A) → IsStable 0 (f a))
      → IsStable n (m >>= f)
  unfolding ◌>>=◌
  bind-IsStable m f hm hf = record {
    shift = λ front buf offset.
        rw (hm.shift front buf offset)
          (moved-continue (m buf offset) f front buf (λ a o. (hf a).shift front buf o));
    settled = λ buf more offset h.
        Settles-continue (m buf offset) (m (buf ++ more) offset) f buf more
          (hm.settled buf more offset h)
          λ a o e. (hf a).settled buf more o (omega (arith, hm.bounded buf offset a o h e));
    bounded = λ buf offset b end h.
        bounded_continue (m buf offset) f buf b end
          λ a o e. (hf a).bounded buf o b end (omega (arith, hm.bounded buf offset a o h e));
  }
