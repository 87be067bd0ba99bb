-- ===== src/Value/Plp/Stable.antt =====
-- readPLPStream of lib/value-parser.js on a buffer that grows, and the rounds of its loop.
use tedious.Prelude.{
  ℕ, zero, suc, ◌+◌, ◌-◌, ◌<◌, ◌≡◌, refl, sym, ap, ◌∙◌, List, ◌∷◌, le_or_lt, inl, inr, ◌++◌, ◌==◌,
  length, length-append, arith,
}
use tedious.Buffer.{Buffer, JsString, le}
use tedious.Collation.Codepages.{Codepage}
use tedious.Metadata.{Metadata, Options}
use tedious.Read.{result, not_enough_data, pure, read_uint32_le, ◌>>=◌, continue, advance}
use tedious.Read.Stable.{
  IsStable, moved, bind-IsStable, pure-IsStable, throw-IsStable, if-IsStable, result-injective,
}
use tedious.Read.Loops.{continue-same, fixed-end, if-same}
use tedious.Read.Fixed.{require_long, require_short, require-IsStable, advance-IsStable}
use tedious.Read.Variable.{read_uint32_le-IsStable, read_big_uint64_le-IsStable}
use tedious.Value.Cells.Stable.{read_value-IsStable}
use tedious.Value.Plp.{
  starved, take_bytes, whole_chunks, all_chunks, matched, whole_plp, whole_cell,
}

starved-IsStable : {A : Type 0} → IsStable 0 (starved {A = A})
starved-IsStable = record {
  shift = λ front buf offset. refl;
  settled = λ buf more offset h. tt;
  bounded = λ buf offset a end h e. cc;
}

pub take_bytes-IsStable : {n : ℕ} (k : ℕ) → IsStable n (take_bytes k)
take_bytes-IsStable k = require-IsStable k _ (advance-IsStable k (omega arith))

pub whole_chunks-IsStable : (rounds : ℕ) → IsStable 0 (whole_chunks rounds)
unfolding whole_chunks
whole_chunks-IsStable zero = starved-IsStable
whole_chunks-IsStable (suc rounds) = bind-IsStable _ _ read_uint32_le-IsStable λ k.
    if-IsStable _ _ _ (pure-IsStable _) (
      bind-IsStable _ _ (take_bytes-IsStable k)
        λ c. bind-IsStable _ _ (whole_chunks-IsStable rounds) λ r. pure-IsStable _)

module _ (buf : Buffer) where
  take_bytes-end :
      (k offset : ℕ) (chunk : Buffer) (end : ℕ)
      → take_bytes k buf offset ≡ result chunk end
      → end ≡ offset + k
  unfolding ◌>>=◌ advance
  take_bytes-end k offset chunk end e = elim (le_or_lt (offset + k) (length buf)) [
    | inl long ↦ sym (result-injective (rw (require_long k buf offset long) at e))
    | inr short ↦ absurd (nothing (rw (require_short k buf offset short) at e))
  ]
    where
      nothing : {m o : ℕ} {b : Buffer} → not_enough_data m ≡ result b o → ⊥
      nothing e = cc

  -- More rounds than bytes are left, or than there are beyond the end of the buffer, are enough.
  pub whole_chunks_enough :
      (m n offset : ℕ)
      → length buf - offset < m
      → length buf - offset < n
      → whole_chunks m buf offset ≡ whole_chunks n buf offset
  unfolding whole_chunks ◌>>=◌ read_uint32_le advance
  whole_chunks_enough zero n offset hm hn = absurd (omega arith)
  whole_chunks_enough (suc m) zero offset hm hn = absurd (omega arith)
  whole_chunks_enough (suc m) (suc n) offset hm hn =
      continue-same (read_uint32_le buf offset) _ _ buf λ k o e.
        if-same buf (k == 0) (pure _) _ _ o (
          continue-same (take_bytes k buf o) _ _ buf λ chunk o' e'.
            ap (λ r. continue r (λ rest. pure (chunk ∷ rest)) buf)
              (whole_chunks_enough m n o'
                (omega (arith, fixed-end 4 le buf offset k o e, take_bytes-end k o chunk o' e'))
                (omega (arith, fixed-end 4 le buf offset k o e, take_bytes-end k o chunk o' e'))))

pub all_chunks_lem :
    (buf : Buffer) (offset rounds : ℕ)
    → length buf - offset < rounds
    → all_chunks buf offset ≡ whole_chunks rounds buf offset
unfolding all_chunks
all_chunks_lem buf offset rounds h =
    whole_chunks_enough buf (suc (length buf)) rounds offset (omega arith) h

all_chunks-IsStable : IsStable 0 all_chunks
all_chunks-IsStable = record {
  shift = λ front buf offset.
      all_chunks_lem (front ++ buf) (length front + offset) (suc (length buf))
        (omega (arith, length-append front buf))
      ∙ (whole_chunks-IsStable (suc (length buf))).shift front buf offset
      ∙ ap (moved (length front))
          (sym (all_chunks_lem buf offset (suc (length buf)) (omega arith)));
  settled = λ buf more offset h.
      rw
        (
          all_chunks_lem buf offset (suc (length (buf ++ more)))
              (omega (arith, length-append buf more)),
          all_chunks_lem (buf ++ more) offset (suc (length (buf ++ more))) (omega arith),
        )
        ((whole_chunks-IsStable (suc (length (buf ++ more)))).settled buf more offset h);
  bounded = λ buf offset a end h e.
      (whole_chunks-IsStable (suc (length buf))).bounded buf offset a end h
        (sym (all_chunks_lem buf offset (suc (length buf)) (omega arith)) ∙ e);
}

pub matched-IsStable :
    {n : ℕ} (expected : ℕ) (chunks : List Buffer) → IsStable n (matched expected chunks)
unfolding matched
matched-IsStable expected chunks = if-IsStable _ _ _ (throw-IsStable _) (pure-IsStable _)

pub matching-IsStable :
    (expected : ℕ) → IsStable 0 (all_chunks >>= λ chunks. matched expected chunks)
matching-IsStable expected =
    bind-IsStable _ _ all_chunks-IsStable λ chunks. matched-IsStable _ chunks

whole_plp-IsStable : {n : ℕ} → IsStable n whole_plp
unfolding whole_plp
whole_plp-IsStable =
    bind-IsStable _ _ read_big_uint64_le-IsStable
      λ expected. if-IsStable _ _ _ (pure-IsStable _) (matching-IsStable expected)

pub whole_cell-IsStable :
    (decode : Codepage → Buffer → JsString) (options : Options) (m : Metadata)
    → IsStable 0 (whole_cell decode options m)
unfolding whole_cell
whole_cell-IsStable decode options m =
    if-IsStable _ _ _ (bind-IsStable _ _ whole_plp-IsStable λ chunks. pure-IsStable _)
      (read_value-IsStable decode options m)
