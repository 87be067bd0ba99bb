-- ===== src/LoginPayload/Layout.antt =====
-- The bytes of Login7Payload.toBuffer of lib/login7-payload.js, as a table of fields.
use tedious.Prelude.{
  ℕ, ◌+◌, ◌/◌, ◌^◌, ◌<◌, ◌≡◌, refl, sym, ap, ◌∙◌, Bool, true, ◌&&◌, Option, none, some, List, [],
  ◌∷◌, ◌++◌, append-nil, append_assoc, length, ltb, ltb-true, arith, if◌then◌else◌,
}
use tedious.Prelude.Int.{ℤ}
use tedious.Buffer.{Buffer, JsString, to_le, unsigned, ucs2_bytes}
use tedious.Buffer.Endian.{length-ucs2_bytes}
use tedious.TrackingBuffer.{fits_signed}
use tedious.LoginPayload.{
  Login, Step, put, put_int32, put_bytes_fixed, entry, put_text, put_hostname, put_extensions,
  put_sspi, run, and_then, checked_step,
}

-- A field, for the offset that it is written at: its bytes in the head, those behind the head, and how far the
-- next offset is.
pub record Field : Type 0 where
  pub head : ℕ → Buffer
  pub content : ℕ → Buffer
  pub advance : ℕ

abbrev pub heads : ℕ → List Field → Buffer
heads o [] = []
heads o (x ∷ xs) = x.head o ++ heads (o + x.advance) xs

abbrev pub contents : ℕ → List Field → Buffer
contents o [] = []
contents o (x ∷ xs) = x.content o ++ contents (o + x.advance) xs

abbrev pub total_advance : List Field → ℕ
total_advance [] = 0
total_advance (x ∷ xs) = x.advance + total_advance xs

abbrev pub extended : Field → Login → Login
extended x s = record {
  fixed_data = s.fixed_data ++ x.head s.data_offset;
  data_offset = s.data_offset + x.advance;
  buffers = s.buffers ++ x.content s.data_offset;
}

-- What a step does where its offset fits two bytes.
pub record Puts (f : Step) (x : Field) : Type 0 where
  pub at : (s : Login) → s.data_offset + x.advance < 65536 → f s ≡ some (extended x s)

abbrev pub Each : List Step → List Field → Type 0
Each [] [] = Unit {0}
Each [] (x ∷ xs) = ⊥
Each (f ∷ fs) [] = ⊥
Each (f ∷ fs) (x ∷ xs) = Puts f x × Each fs xs

abbrev login_of : Buffer → ℕ → Buffer → Login
login_of fixed_data data_offset buffers = record {
  fixed_data = fixed_data;
  data_offset = data_offset;
  buffers = buffers;
}

same_login :
    {a a' b b' : Buffer} {n n' : ℕ} → a ≡ a' → n ≡ n' → b ≡ b' → login_of a n b ≡ login_of a' n' b'
same_login e e' e'' = rw (e, e', e'') refl

checked_lem : (b : Bool) (s : Login) → b ≡ true → checked_step b s ≡ some s
checked_lem b s e = rw e refl

pub run-Each :
    (fs : List Step) (xs : List Field) (s : Login)
    → Each fs xs
    → s.data_offset + total_advance xs < 65536
    → run fs s
      ≡ some (record {
        fixed_data = s.fixed_data ++ heads s.data_offset xs;
        data_offset = s.data_offset + total_advance xs;
        buffers = s.buffers ++ contents s.data_offset xs;
      })
unfolding run
run-Each [] [] s h k = ap some (same_login (sym (append-nil _)) (omega arith) (sym (append-nil _)))
run-Each [] (x ∷ xs) s h k = absurd h
run-Each (f ∷ fs) [] s h k = absurd h
run-Each (f ∷ fs) (x ∷ xs) s h k =
    ap (λ o. and_then o (run fs)) (h.0.at s (omega arith))
    ∙ run-Each fs xs (extended x s) h.1 (omega arith)
    ∙ ap some (
        same_login
          (append_assoc s.fixed_data (x.head s.data_offset) (heads (s.data_offset + x.advance) xs))
          (omega arith)
          (append_assoc s.buffers (x.content s.data_offset)
            (contents (s.data_offset + x.advance) xs)))

-- The fields.
abbrev pub plain : Buffer → Field
plain bytes = record { head = λ o. bytes; content = λ o. []; advance = 0 }

-- An offset and a count.
abbrev pub pointer : ℕ → (ℕ → ℕ) → (ℕ → Buffer) → Field
pointer advance count content = record {
  head = λ o. to_le 2 o ++ to_le 2 (count o);
  content = content;
  advance = advance;
}

abbrev pub text_field : (Buffer → Buffer) → JsString → Field
text_field scramble s =
    pointer (length (ucs2_bytes s)) (λ o. length s) (λ o. scramble (ucs2_bytes s))

abbrev pub hostname_count : JsString → ℕ → ℕ
hostname_count [] o = o
hostname_count (c ∷ cs) o = length (c ∷ cs)

abbrev pub hostname_field : JsString → Field
hostname_field s = pointer (length (ucs2_bytes s)) (hostname_count s) (λ o. ucs2_bytes s)

abbrev pub extensions_field : Buffer → Field
extensions_field ext = pointer (4 + length ext) (λ o. 4) (λ o. to_le 4 (o + 4) ++ ext)

abbrev pub sspi_count : Option Buffer → ℕ
sspi_count none = 0
sspi_count (some bytes) = if ltb 65535 (length bytes) then 65535 else length bytes

abbrev pub sspi_bytes : Option Buffer → Buffer
sspi_bytes none = []
sspi_bytes (some bytes) = bytes

abbrev pub sspi_field : Option Buffer → Field
sspi_field o = pointer 0 (λ n. sspi_count o) (λ n. sspi_bytes o)

kept_login :
    (s : Login) (bytes : Buffer)
    → some (record {
      fixed_data = s.fixed_data ++ bytes;
      data_offset = s.data_offset;
      buffers = s.buffers;
    })
      ≡ some (extended (plain bytes) s)
kept_login s bytes = ap some (same_login refl (omega arith) (sym (append-nil _)))

pub put-Puts : (w v : ℕ) → v < 256 ^ w → Puts (put w v) (plain (to_le w v))
unfolding put
put-Puts w v h = record {
  at = λ s k.
      checked_lem _ (login_of (s.fixed_data ++ to_le w v) s.data_offset s.buffers) (ltb-true _ _ h)
      ∙ kept_login s (to_le w v);
}

pub put_int32-Puts :
    (v : ℤ) → fits_signed 4 v ≡ true → Puts (put_int32 v) (plain (to_le 4 (unsigned 4 v)))
unfolding put_int32
put_int32-Puts v h = record {
  at = λ s k.
      checked_lem _ (login_of (s.fixed_data ++ to_le 4 (unsigned 4 v)) s.data_offset s.buffers) h
      ∙ kept_login s (to_le 4 (unsigned 4 v));
}

pub put_bytes_fixed-Puts : (bytes : Buffer) → Puts (put_bytes_fixed bytes) (plain bytes)
unfolding put_bytes_fixed
put_bytes_fixed-Puts bytes = record { at = λ s k. kept_login s bytes }

both_fit : (a b : ℕ) → a < 65536 → b < 65536 → (ltb a 65536 && ltb b 65536) ≡ true
both_fit a b h k = rw (ltb-true a 65536 h, ltb-true b 65536 k) refl

entry_lem :
    (advance count : ℕ) (bytes : Buffer) (s : Login)
    → s.data_offset < 65536
    → count < 65536
    → entry advance count bytes s
      ≡ some (record {
        fixed_data = s.fixed_data ++ (to_le 2 s.data_offset ++ to_le 2 count);
        data_offset = s.data_offset + advance;
        buffers = s.buffers ++ bytes;
      })
unfolding entry
entry_lem advance count bytes s h k =
    checked_lem _
      (login_of (s.fixed_data ++ (to_le 2 s.data_offset ++ to_le 2 count)) (s.data_offset + advance)
        (s.buffers ++ bytes))
      (both_fit s.data_offset count h k)

halved : (s : JsString) → length (ucs2_bytes s) / 2 ≡ length s
halved s = omega (arith, length-ucs2_bytes s)

pub put_text-Puts :
    (scramble : Buffer → Buffer) (s : JsString)
    → scramble [] ≡ []
    → Puts (put_text scramble s) (text_field scramble s)
unfolding put_text ucs2_bytes
put_text-Puts scramble [] e = record {
  at = λ s k.
      entry_lem 0 0 [] s (omega arith) (omega arith)
      ∙ ap
          (λ b. some (
            login_of (s.fixed_data ++ (to_le 2 s.data_offset ++ to_le 2 0)) (s.data_offset + 0)
              (s.buffers ++ b)))
          (sym e);
}
put_text-Puts scramble (c ∷ cs) e = record {
  at = λ s k.
      entry_lem (length (ucs2_bytes (c ∷ cs))) (length (ucs2_bytes (c ∷ cs)) / 2)
        (scramble (ucs2_bytes (c ∷ cs))) s (omega arith) (omega arith)
      ∙ ap
          (λ n. some (
            login_of (s.fixed_data ++ (to_le 2 s.data_offset ++ to_le 2 n))
              (s.data_offset + length (ucs2_bytes (c ∷ cs)))
              (s.buffers ++ scramble (ucs2_bytes (c ∷ cs)))))
          (halved (c ∷ cs));
}

pub put_hostname-Puts : (s : JsString) → Puts (put_hostname s) (hostname_field s)
unfolding put_hostname ucs2_bytes
put_hostname-Puts [] = record {
  at = λ s k. entry_lem 0 s.data_offset [] s (omega arith) (omega arith);
}
put_hostname-Puts (c ∷ cs) = record {
  at = λ s k.
      entry_lem (length (ucs2_bytes (c ∷ cs))) (length (ucs2_bytes (c ∷ cs)) / 2)
        (ucs2_bytes (c ∷ cs)) s (omega arith) (omega arith)
      ∙ ap
          (λ n. some (
            login_of (s.fixed_data ++ (to_le 2 s.data_offset ++ to_le 2 n))
              (s.data_offset + length (ucs2_bytes (c ∷ cs))) (s.buffers ++ ucs2_bytes (c ∷ cs))))
          (halved (c ∷ cs));
}

pub put_extensions-Puts : (ext : Buffer) → Puts (put_extensions ext) (extensions_field ext)
unfolding put_extensions
put_extensions-Puts ext = record {
  at = λ s k.
      entry_lem (4 + length ext) 4 (to_le 4 (s.data_offset + 4) ++ ext) s (omega arith)
        (omega arith);
}

capped : (n : ℕ) → (if ltb 65535 n then 65535 else n) < 65536
capped n = ground arith

pub put_sspi-Puts : (o : Option Buffer) → Puts (put_sspi o) (sspi_field o)
unfolding put_sspi
put_sspi-Puts none = record { at = λ s k. entry_lem 0 0 [] s (omega arith) (omega arith) }
put_sspi-Puts (some bytes) = record {
  at = λ s k.
      entry_lem 0 (if ltb 65535 (length bytes) then 65535 else length bytes) bytes s (omega arith)
        (capped (length bytes));
}
