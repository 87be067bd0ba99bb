-- ===== src/StreamParser/Cells/Agree.antt =====
-- Reading a cell from the chunks of a stream next to reading it from all the bytes.
use tedious.Prelude.{
  ℕ, zero, suc, refl, Bool, true, false, none, List, [], ◌==◌, length-append, length-drop, concat,
  arith, if◌then◌else◌, drop,
}
use tedious.Buffer.{Buffer, JsString}
use tedious.Collation.Codepages.{Codepage}
use tedious.Metadata.{Metadata, Options}
use tedious.Read.{Read, Error, throw}
use tedious.Read.Stable.{pure-IsStable, if-IsStable, bind-IsStable}
use tedious.Read.Variable.{read_uint32_le-IsStable, read_big_uint64_le-IsStable}
use tedious.Value.Cells.Stable.{read_value-IsStable}
use tedious.Value.Plp.{whole_chunks, all_chunks, matched, whole_plp, whole_cell}
use tedious.Value.Plp.Stable.{
  take_bytes-IsStable, whole_chunks-IsStable, all_chunks_lem, matching-IsStable, matched-IsStable,
}
use tedious.StreamParser.{Parser, Outcome, failed}
use tedious.StreamParser.Refine.{view, Implements, retry-Implements, ok-Implements, bind-Implements}
use tedious.StreamParser.Cells.{read_chunks, check_length, read_plp_stream, read_cell, bytes_left}

module _ {A : Type 0} (fuel : ℕ) where
  pub if-Implements :
      (b : Bool) (p q : Read A) (f g : Parser → Outcome A)
      → Implements fuel p f
      → Implements fuel q g
      → Implements fuel (if b then p else q) (λ s. if b then f s else g s)
  if-Implements true p q f g hp hq = hp
  if-Implements false p q f g hp hq = hq

throw-Implements :
    (A : Type 0) (fuel : ℕ) (e : Error) → Implements fuel (throw {A = A} e) (λ s. failed e)
unfolding Implements throw
throw-Implements A fuel e s ready few = refl

module _ (fuel : ℕ) where
  no_rounds-Implements : Implements fuel (whole_chunks zero) (read_chunks fuel zero)
  unfolding whole_chunks read_chunks Implements
  no_rounds-Implements s ready few = tt

  read_chunks-Implements :
      (rounds : ℕ) → Implements fuel (whole_chunks rounds) (read_chunks fuel rounds)
  unfolding whole_chunks read_chunks
  read_chunks-Implements zero = no_rounds-Implements
  read_chunks-Implements (suc rounds) =
      bind-Implements fuel _ _ _ _ (retry-Implements fuel _ read_uint32_le-IsStable)
        (λ k. if-IsStable _ _ _ (pure-IsStable _) (
          bind-IsStable _ _ (take_bytes-IsStable k)
            λ c. bind-IsStable _ _ (whole_chunks-IsStable rounds) λ r. pure-IsStable _))
        λ k. if-Implements fuel (k == 0) _ _ _ _ (ok-Implements fuel []) (
          bind-Implements fuel _ _ _ _ (retry-Implements fuel _ (take_bytes-IsStable k))
            (λ c. bind-IsStable _ _ (whole_chunks-IsStable rounds) λ r. pure-IsStable _)
            λ c.
              bind-Implements fuel _ _ _ _ (read_chunks-Implements rounds) (λ r. pure-IsStable _)
                λ r. ok-Implements fuel _)

  all_chunks-Implements : Implements fuel all_chunks (λ s. read_chunks fuel (suc (bytes_left s)) s)
  unfolding Implements
  all_chunks-Implements s ready few =
      rw
        (all_chunks_lem (view s) 0 (suc (bytes_left s)) (
          omega (
            arith,
            length-append (drop s.position s.buffer) (concat s.chunks),
            length-drop s.position s.buffer,
          )))
        (read_chunks-Implements (suc (bytes_left s)) s ready few)

  check_length-Implements :
      (expected : ℕ) (chunks : List Buffer)
      → Implements fuel (matched expected chunks) (check_length fuel expected chunks)
  unfolding matched
  check_length-Implements expected chunks =
      if-Implements fuel _ _ _ _ _ (throw-Implements _ fuel _) (ok-Implements fuel _)

  pub read_plp_stream-Implements : Implements fuel whole_plp (read_plp_stream fuel)
  unfolding whole_plp read_plp_stream
  read_plp_stream-Implements =
      bind-Implements fuel _ _ _ _ (retry-Implements fuel _ read_big_uint64_le-IsStable)
        (λ e. if-IsStable _ _ _ (pure-IsStable _) (matching-IsStable e))
        λ e. if-Implements fuel (e == 0xFFFFFFFFFFFFFFFF) _ _ _ _ (ok-Implements fuel none) (
          bind-Implements fuel _ _ _ _ all_chunks-Implements (λ c. matched-IsStable e c)
            λ c. check_length-Implements e c)

  -- With retries for every chunk, reading a cell from the chunks agrees with reading it from all the
  -- bytes: the same value and as many bytes consumed, the same error, or no end where bytes are missing.
  pub read_cell-Implements :
      (decode : Codepage → Buffer → JsString) (options : Options) (m : Metadata)
      → Implements fuel (whole_cell decode options m) (read_cell fuel decode options m)
  unfolding whole_cell read_cell
  read_cell-Implements decode options m =
      if-Implements fuel _ _ _ _ _
        (bind-Implements fuel _ _ _ _ read_plp_stream-Implements (λ c. pure-IsStable _)
          λ c. ok-Implements fuel _)
        (retry-Implements fuel _ (read_value-IsStable decode options m))
