-- ===== src/Token/EnvChange/Stable.antt =====
-- The parser of lib/token/env-change-token-parser.js on a buffer that grows; the skip over an
-- unsupported type relies on the length check in front of it.
use native.Mathlib.Nat.{add_assoc}
use tedious.Prelude.{
  ℕ, ◌+◌, ◌-◌, ◌≤◌, ◌<◌, ◌≡◌, refl, ap, Bool, true, false, none, ◌++◌, length, length-append, arith,
  le_or_lt, inl, inr, if◌then◌else◌,
}
use tedious.Buffer.{Buffer, JsString, slice, le}
use tedious.Buffer.Window.{slice-append, slice-shift}
use tedious.Read.{Read, result, not_enough_data, read_uint8, ◌>>=◌, fixed}
use tedious.Read.Stable.{IsStable, Settles, moved, bind-IsStable, pure-IsStable, result-injective}
use tedious.Read.Fixed.{require_long, require_short, node_read_long, require-IsStable}
use tedious.Read.Variable.{stable_rules, read_uint16_le-IsStable}
use tedious.Token.{EnvChangeData}
use tedious.Token.EnvChange.{
  read_strings, read_bytes, read_routing, skip, read_new_and_old_value, read_env_change,
  env_change_parser,
}

read_uint8-long :
    (buf : Buffer) (offset : ℕ)
    → offset + 1 ≤ length buf
    → read_uint8 buf offset ≡ result (le (slice buf offset (offset + 1))) (offset + 1)
unfolding read_uint8 fixed ◌>>=◌
read_uint8-long buf offset h = rw (require_long 1 buf offset h) (node_read_long 1 le buf offset h)

read_uint8-short :
    (buf : Buffer) (offset : ℕ)
    → length buf < offset + 1
    → read_uint8 buf offset ≡ not_enough_data (offset + 1)
unfolding read_uint8 fixed ◌>>=◌
read_uint8-short buf offset h = rw (require_short 1 buf offset h) refl

-- Stable behind one byte of the `n` that are at hand.
record IsStableBehind {B : Type 0} (n : ℕ) (f : Read B) : Type 0 where
  shift :
      (front buf : Buffer) (offset : ℕ)
      → f (front ++ buf) (length front + (offset + 1)) ≡ moved (length front) (f buf (offset + 1))
  settled :
      (buf more : Buffer) (offset : ℕ)
      → offset + 1 ≤ length buf
      → Settles (f buf (offset + 1)) (f (buf ++ more) (offset + 1))
  bounded :
      (buf : Buffer) (offset : ℕ) (b : B) (end : ℕ)
      → offset + 1 ≤ length buf
      → offset + n ≤ length buf
      → f buf (offset + 1) ≡ result b end
      → end ≤ length buf

behind : {B : Type 0} {n : ℕ} {f : Read B} → IsStable 0 f → IsStableBehind n f
behind s = record {
  shift = λ front buf offset. s.shift front buf (offset + 1);
  settled = λ buf more offset h. s.settled buf more (offset + 1) (omega arith);
  bounded = λ buf offset b end h k e. s.bounded buf (offset + 1) b end (omega arith) e;
}

skip-IsStableBehind : {n : ℕ} → IsStableBehind n (skip n)
unfolding skip
skip-IsStableBehind {n} = record {
  shift = λ front buf offset. ap (result none) (ends (length front) offset);
  settled = λ buf more offset h. refl;
  bounded = λ buf offset b end h k e. omega (arith, result-injective e);
}
  where
    ends : (k offset : ℕ) → k + (offset + 1) + n - 1 ≡ k + (offset + 1 + n - 1)
    ends k offset = omega arith

uint8-bind-IsStable :
    {B : Type 0} {n : ℕ} (f : ℕ → Read B)
    → ((t : ℕ) → IsStableBehind n (f t))
    → IsStable n (read_uint8 >>= f)
unfolding ◌>>=◌
uint8-bind-IsStable {B = B} f hf = record {
  shift = λ front buf offset. elim (le_or_lt (offset + 1) (length buf)) [
    | inl long ↦
        rw
          (
            read_uint8-long (front ++ buf) (length front + offset)
                (omega (arith, length-append front buf)),
            read_uint8-long buf offset long,
            slice-shift front buf offset 1,
            add_assoc (length front) offset 1,
          )
          ((hf (le (slice buf offset (offset + 1)))).shift front buf offset)
    | inr short ↦
        rw
          (
            read_uint8-short (front ++ buf) (length front + offset)
                (omega (arith, length-append front buf)),
            read_uint8-short buf offset short,
          )
          (ap not_enough_data (add_assoc (length front) offset 1))
  ];
  settled = λ buf more offset h. elim (le_or_lt (offset + 1) (length buf)) [
    | inl long ↦
        rw
          (
            read_uint8-long buf offset long,
            read_uint8-long (buf ++ more) offset (omega (arith, length-append buf more)),
            slice-append buf more offset 1 long,
          )
          ((hf (le (slice buf offset (offset + 1)))).settled buf more offset long)
    | inr short ↦ rw (read_uint8-short buf offset short) tt
  ];
  bounded = λ buf offset b end h e. elim (le_or_lt (offset + 1) (length buf)) [
    | inl long ↦
        (hf (le (slice buf offset (offset + 1)))).bounded buf offset b end long h
          (rw (read_uint8-long buf offset long) at e)
    | inr short ↦ absurd (nothing (rw (read_uint8-short buf offset short) at e))
  ];
}
  where
    nothing : {m o : ℕ} {b : B} → not_enough_data m ≡ result b o → ⊥
    nothing e = cc

module _ (change : JsString → JsString → EnvChangeData) where
  read_strings-IsStable : IsStable 0 (read_strings change)
  unfolding read_strings
  read_strings-IsStable = search stable_rules depth 9

module _ (change : Buffer → Buffer → EnvChangeData) where
  read_bytes-IsStable : IsStable 0 (read_bytes change)
  unfolding read_bytes
  read_bytes-IsStable = search stable_rules depth 9

read_routing-IsStable : IsStable 0 read_routing
unfolding read_routing
read_routing-IsStable = search stable_rules depth 14

either :
    {B : Type 0} {n : ℕ} (b : Bool) (p q : Read B)
    → IsStable 0 p
    → IsStableBehind n q
    → IsStableBehind n (if b then p else q)
either true p q hp hq = behind hp
either false p q hp hq = hq

body-IsStableBehind : (n type : ℕ) → IsStableBehind n (read_new_and_old_value n type)
unfolding read_new_and_old_value
body-IsStableBehind n type =
    search
      (
        either, read_strings-IsStable, read_bytes-IsStable, read_routing-IsStable,
        skip-IsStableBehind,
      )
      depth 26

read_env_change-IsStable : {n : ℕ} → IsStable n read_env_change
unfolding read_env_change
read_env_change-IsStable = bind-IsStable _ _ read_uint16_le-IsStable λ l.
    require-IsStable l _ (uint8-bind-IsStable (read_new_and_old_value l) (body-IsStableBehind l))

pub env_change_parser-IsStable : {n : ℕ} → IsStable n (env_change_parser)
unfolding env_change_parser
env_change_parser-IsStable = bind-IsStable _ _ read_env_change-IsStable λ c. pure-IsStable _
