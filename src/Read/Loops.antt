-- ===== src/Read/Loops.antt =====
-- Two runs of a reader on one buffer: for the loops of lib/, whose fuel does not matter when it is enough.
use tedious.Prelude.{
  ℕ, ◌+◌, ◌≤◌, ◌≡◌, refl, sym, Bool, true, false, length, arith, le_or_lt, inl, inr, if◌then◌else◌,
}
use tedious.Buffer.{Buffer}
use tedious.Read.{Read, Result, result, not_enough_data, thrown, fixed, ◌>>=◌, continue, require}
use tedious.Read.Stable.{result-injective}
use tedious.Read.Fixed.{require_long, require_short, node_read_long}

pub continue-same :
    {A B : Type 0} (r : Result A) (f g : A → Read B) (buf : Buffer)
    → ((a : A) (o : ℕ) → r ≡ result a o → f a buf o ≡ g a buf o)
    → continue r f buf ≡ continue r g buf
continue-same (result a o) f g buf h = h a o refl
continue-same (not_enough_data n) f g buf h = refl
continue-same (thrown e) f g buf h = refl

-- A number of `w` bytes that was read ends `w` bytes further.
pub fixed-end :
    {A : Type 0} (w : ℕ) (decode : Buffer → A) (buf : Buffer) (offset : ℕ) (a : A) (end : ℕ)
    → fixed w decode buf offset ≡ result a end
    → (end ≡ offset + w) × (end ≤ length buf)
unfolding fixed ◌>>=◌
fixed-end {A = A} w decode buf offset a end e = elim (le_or_lt (offset + w) (length buf)) [
  | inl long ↦
      let here =
        result-injective
          (rw (require_long w buf offset long, node_read_long w decode buf offset long) at e) in
      (sym here, omega arith)
  | inr short ↦ absurd (nothing (rw (require_short w buf offset short) at e))
]
  where
    nothing : {m o : ℕ} {b : A} → not_enough_data m ≡ result b o → ⊥
    nothing e = cc

module _ (buf : Buffer) where
  pub require-same :
      {B : Type 0} (k offset : ℕ) (f g : Unit {0} → Read B)
      → (offset + k ≤ length buf → f tt buf offset ≡ g tt buf offset)
      → (require k >>= f) buf offset ≡ (require k >>= g) buf offset
  unfolding ◌>>=◌
  require-same k offset f g h = elim (le_or_lt (offset + k) (length buf)) [
    | inl long ↦ rw (require_long k buf offset long) (h long)
    | inr short ↦ rw (require_short k buf offset short) refl
  ]

  pub if-same :
      {B : Type 0} (b : Bool) (p q q' : Read B) (offset : ℕ)
      → q buf offset ≡ q' buf offset
      → (if b then p else q) buf offset ≡ (if b then p else q') buf offset
  if-same true p q q' offset h = refl
  if-same false p q q' offset h = h
