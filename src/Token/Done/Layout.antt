-- ===== src/Token/Done/Layout.antt =====
-- A DONE token as the protocol lays it out, read by lib/token/done-token-parser.js.
use tedious.Prelude.Bits.{binary_digit, binary_digit_bound, bit_and_power}
use tedious.Prelude.Double.{to_double}
use tedious.Prelude.{
  ℕ, arith, ◌∙◌, sym, ap, refl, ◌*◌, ◌==◌, not, some, none, if◌then◌else◌, ◌+◌, ◌^◌, ◌<◌, ◌≡◌,
  false, [], ◌++◌, length,
}
use tedious.Buffer.{Buffer, to_le}
use tedious.Read.{result}
use tedious.Read.Complete.{Reads, bind-Reads, pure-Reads, uint16_le-Reads, big_uint64_le-Reads}
use tedious.Metadata.{Options, before_7_2}
use tedious.Token.{DoneData, done}
use tedious.Token.Done.{has_flag, read_done, done_data, done_parser}

-- Status, current command and row count.
abbrev pub done_layout : ℕ → ℕ → ℕ → Buffer
done_layout status cur_cmd row_count =
    to_le 2 status ++ (to_le 2 cur_cmd ++ (to_le 8 row_count ++ []))

-- The fields of a DONE token, by the digits of its status: MORE is bit 0, ERROR bit 1, COUNT bit 4, ATTN bit 5 and
-- SRVERROR bit 8.
abbrev pub done_fields : ℕ → ℕ → ℕ → DoneData
done_fields status cur_cmd row_count = record {
  more = binary_digit 0 status == 1;
  sql_error = binary_digit 1 status == 1;
  attention = binary_digit 5 status == 1;
  server_error = binary_digit 8 status == 1;
  row_count = if binary_digit 4 status == 1 then some (to_double row_count) else none;
  cur_cmd = cur_cmd;
}

flag_of :
    (k status weight : ℕ)
    → 2 ^ k ≡ weight
    → 0 < weight
    → has_flag status weight ≡ (binary_digit k status == 1)
flag_of k status weight e h =
    rw (sym e, bit_and_power k status, e)
      (cases (binary_digit k status) (binary_digit_bound k status))
  where
    cases : (d : ℕ) → d < 2 → not (d * weight == 0) ≡ (d == 1)
    cases d b = ground (arith, h)

done_data-fields :
    (status cur_cmd row_count : ℕ)
    → done_data status cur_cmd row_count ≡ done_fields status cur_cmd row_count
done_data-fields status cur_cmd row_count =
    rw
      (
        flag_of 0 status 0x0001 refl (omega arith),
        flag_of 1 status 0x0002 refl (omega arith),
        flag_of 5 status 0x0020 refl (omega arith),
        flag_of 8 status 0x0100 refl (omega arith),
        flag_of 4 status 0x0010 refl (omega arith),
      )
      refl

read_done-Reads :
    (options : Options) (status cur_cmd row_count : ℕ)
    → before_7_2 options ≡ false
    → status < 65536
    → cur_cmd < 65536
    → row_count < 256 ^ 8
    → Reads
        (read_done options)
        (done_layout status cur_cmd row_count)
        (done_data status cur_cmd row_count)
unfolding read_done
read_done-Reads options status cur_cmd row_count late hs hc hr = rw late (
    bind-Reads _ _ (uint16_le-Reads status hs) (
      bind-Reads _ _ (uint16_le-Reads cur_cmd hc)
        (bind-Reads _ _ (big_uint64_le-Reads row_count hr) (pure-Reads _))))

-- From version 7.2 on, doneParser reads a DONE token with a status and a command of 16 bits and a row
-- count of 64 bits anywhere in a buffer, and stops right behind it: `more`, `sqlError`, `attention` and `serverError` are
-- the bits 0, 1, 5 and 8 of the status, and the row count, as a double, is there where bit 4 is set.
pub done_parser-layout :
    (options : Options) (status cur_cmd row_count : ℕ) (front rest : Buffer)
    → before_7_2 options ≡ false
    → status < 65536
    → cur_cmd < 65536
    → row_count < 256 ^ 8
    → done_parser options (front ++ (done_layout status cur_cmd row_count ++ rest)) (length front)
      ≡ result (done (done_fields status cur_cmd row_count)) (length front + 12)
unfolding done_parser to_le
done_parser-layout options status cur_cmd row_count front rest late hs hc hr =
    (bind-Reads _ _ (read_done-Reads options status cur_cmd row_count late hs hc hr)
        (pure-Reads _)).at
      front rest
    ∙ ap (λ d. result (done d) (length front + 12)) (done_data-fields status cur_cmd row_count)
