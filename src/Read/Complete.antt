-- ===== src/Read/Complete.antt =====
-- What the readers return on data that is there: `Reads p bytes a` says that `p`, put before these
-- bytes anywhere in a buffer, returns `a` and the offset behind them.
use mathlib.Core.Path.{subst}
use native.Mathlib.Nat.{add_assoc}
use tedious.Prelude.{
  ℕ, ◌+◌, ◌-◌, ◌*◌, ◌^◌, ◌≤◌, ◌<◌, ◌≡◌, ap, ◌∙◌, [], ◌++◌, append_assoc, append-nil, arith,
}
use tedious.Prelude.{length, length-append, take, take-length-append, drop-length-append}
use tedious.Buffer.{Buffer, JsString, slice, le, be, to_le, to_be, ucs2, ucs2_bytes}
use tedious.Buffer.Endian.{
  length-to_le, length-to_be, le-to_le, be-to_be, ucs2-ucs2_bytes, length-ucs2_bytes,
}
use tedious.Read.{
  result, Read, pure, ◌>>=◌, require, advance, fixed, read_uint8, read_uint16_le, read_uint32_le,
  read_uint32_be, read_big_uint64_le, read_b_var_char, read_b_var_byte, read_us_var_char,
  read_us_var_byte,
}
use tedious.Read.Fixed.{require_long, node_read_long}

pub record Reads {A : Type 0} (p : Read A) (bytes : Buffer) (a : A) : Type 0 where
  pub at :
      (front rest : Buffer)
      → p (front ++ (bytes ++ rest)) (length front) ≡ result a (length front + length bytes)

slice-at :
    (front bytes rest : Buffer)
    → slice (front ++ (bytes ++ rest)) (length front) (length front + length bytes) ≡ bytes
slice-at front bytes rest =
    rw (drop-length-append front (bytes ++ rest))
      (ap (λ n. take n (bytes ++ rest)) width ∙ take-length-append bytes rest)
  where
    width : length front + length bytes - length front ≡ length bytes
    width = omega arith

within :
    (front bytes rest : Buffer) → length front + length bytes ≤ length (front ++ (bytes ++ rest))
within front bytes rest =
    omega (arith, length-append front (bytes ++ rest), length-append bytes rest)

module _ {A : Type 0} where
  pub pure-Reads : (a : A) → Reads (pure a) [] a
  unfolding pure
  pure-Reads a = record { at = λ front rest. ap (result a) (omega arith) }

  pub fixed-Reads :
      (decode : Buffer → A) (bytes : Buffer)
      → Reads (fixed (length bytes) decode) bytes (decode bytes)
  unfolding fixed ◌>>=◌
  fixed-Reads decode bytes = record {
    at = λ front rest. rw (
      require_long (length bytes) (front ++ (bytes ++ rest)) (length front)
          (within front bytes rest),
      node_read_long (length bytes) decode (front ++ (bytes ++ rest)) (length front)
          (within front bytes rest),
      slice-at front bytes rest,
    );
  }

pub advance-Reads : (bytes : Buffer) → Reads (advance (length bytes)) bytes bytes
unfolding advance
advance-Reads bytes = record { at = λ front rest. rw (slice-at front bytes rest) }

module _ {A B : Type 0} where
  pub bind-Reads :
      {m : Read A} (f : A → Read B) {x y : Buffer} (a : A) {b : B}
      → Reads m x a
      → Reads (f a) y b
      → Reads (m >>= f) (x ++ y) b
  unfolding ◌>>=◌
  bind-Reads {m} f {x} {y} a {b} hm hf = record {
    at = λ front rest.
        let here = hm.at front (y ++ rest) in
        let there = hf.at (front ++ x) rest in
        rw (append_assoc x y rest, here)
          (rw
            (
              append_assoc front x (y ++ rest),
              length-append front x,
              add_assoc (length front) (length x) (length y),
              ← length-append x y,
            )
            at there);
  }

module _ {B : Type 0} where
  -- A length check is passed where the bytes that it asks for are there.
  pub require-Reads :
      {p : Read B} {bytes : Buffer} {b : B} (k : ℕ)
      → k ≤ length bytes
      → Reads p bytes b
      → Reads (require k >>= λ _. p) bytes b
  unfolding ◌>>=◌
  require-Reads {bytes = bytes} k h hp = record {
    at = λ front rest.
        rw
          (require_long k (front ++ (bytes ++ rest)) (length front)
            (omega (arith, within front bytes rest)))
          (hp.at front rest);
  }

-- A fixed-width number is read back from its encoding.
pub number-Reads : (w v : ℕ) → v < 256 ^ w → Reads (fixed w le) (to_le w v) v
number-Reads w v h =
    subst (λ (a : ℕ). Reads (fixed w le) (to_le w v) a) (le-to_le w v h)
      (subst (λ (n : ℕ). Reads (fixed n le) (to_le w v) (le (to_le w v))) (length-to_le w v)
        (fixed-Reads le (to_le w v)))

pub number_be-Reads : (w v : ℕ) → v < 256 ^ w → Reads (fixed w be) (to_be w v) v
number_be-Reads w v h =
    subst (λ (a : ℕ). Reads (fixed w be) (to_be w v) a) (be-to_be w v h)
      (subst (λ (n : ℕ). Reads (fixed n be) (to_be w v) (be (to_be w v))) (length-to_be w v)
        (fixed-Reads be (to_be w v)))

module _ (v : ℕ) where
  pub uint8-Reads : v < 256 → Reads read_uint8 (to_le 1 v) v
  unfolding read_uint8
  uint8-Reads h = number-Reads 1 v h

  pub uint16_le-Reads : v < 65536 → Reads read_uint16_le (to_le 2 v) v
  unfolding read_uint16_le
  uint16_le-Reads h = number-Reads 2 v h

  pub uint32_le-Reads : v < 256 ^ 4 → Reads read_uint32_le (to_le 4 v) v
  unfolding read_uint32_le
  uint32_le-Reads h = number-Reads 4 v h

  pub uint32_be-Reads : v < 256 ^ 4 → Reads read_uint32_be (to_be 4 v) v
  unfolding read_uint32_be
  uint32_be-Reads h = number_be-Reads 4 v h

  pub big_uint64_le-Reads : v < 256 ^ 8 → Reads read_big_uint64_le (to_le 8 v) v
  unfolding read_big_uint64_le
  big_uint64_le-Reads h = number-Reads 8 v h

-- The bytes of a string or a byte array behind its length.
ucs2-Reads :
    (s : JsString)
    → Reads
        (require (length s * 2) >>= λ _. advance (length s * 2) >>= λ b. pure (ucs2 b))
        (ucs2_bytes s)
        s
ucs2-Reads s =
    subst (λ (n : ℕ). Reads (require n >>= λ _. advance n >>= λ b. pure (ucs2 b)) (ucs2_bytes s) s)
      (length-ucs2_bytes s)
      (require-Reads _ (omega arith) (
        subst (λ (b : Buffer). Reads (advance (length (ucs2_bytes s)) >>= λ b. pure (ucs2 b)) b s)
          (append-nil (ucs2_bytes s))
          (bind-Reads _ (ucs2_bytes s) (advance-Reads (ucs2_bytes s)) (
            subst (λ (a : JsString). Reads (pure (ucs2 (ucs2_bytes s))) [] a) (ucs2-ucs2_bytes s)
              (pure-Reads (ucs2 (ucs2_bytes s)))))))

pub b_var_char-Reads :
    (s : JsString) → length s < 256 → Reads read_b_var_char (to_le 1 (length s) ++ ucs2_bytes s) s
unfolding read_b_var_char
b_var_char-Reads s h = bind-Reads _ (length s) (uint8-Reads (length s) h) (ucs2-Reads s)

pub us_var_char-Reads :
    (s : JsString)
    → length s < 65536
    → Reads read_us_var_char (to_le 2 (length s) ++ ucs2_bytes s) s
unfolding read_us_var_char
us_var_char-Reads s h = bind-Reads _ (length s) (uint16_le-Reads (length s) h) (ucs2-Reads s)

pub b_var_byte-Reads :
    (b : Buffer) → length b < 256 → Reads read_b_var_byte (to_le 1 (length b) ++ b) b
unfolding read_b_var_byte
b_var_byte-Reads b h =
    bind-Reads _ (length b) (uint8-Reads (length b) h)
      (require-Reads _ (omega arith) (advance-Reads b))

pub us_var_byte-Reads :
    (b : Buffer) → length b < 65536 → Reads read_us_var_byte (to_le 2 (length b) ++ b) b
unfolding read_us_var_byte
us_var_byte-Reads b h =
    bind-Reads _ (length b) (uint16_le-Reads (length b) h)
      (require-Reads _ (omega arith) (advance-Reads b))
