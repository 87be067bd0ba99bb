-- ===== src/Token/Done.antt =====
-- lib/token/done-token-parser.js: DONE, DONEINPROC and DONEPROC.
pub mod Layout
use tedious.Prelude.{ℕ, Bool, not, none, some, ◌==◌, if◌then◌else◌, bit_and}
use tedious.Prelude.Double.{to_double}
use tedious.Read.{Read, pure, ◌>>=◌, read_uint16_le, read_uint32_le, read_big_uint64_le}
use tedious.Read.Stable.{IsStable, bind-IsStable, pure-IsStable, if-IsStable}
use tedious.Read.Variable.{
  read_uint16_le-IsStable, read_uint32_le-IsStable, read_big_uint64_le-IsStable,
}
use tedious.Metadata.{Options, before_7_2}
use tedious.Token.{Token, DoneData, done, done_in_proc, done_proc}

-- `!!(status & flag)`
abbrev pub has_flag : ℕ → ℕ → Bool
has_flag status flag = not (bit_and status flag == 0)

abbrev pub done_data : ℕ → ℕ → ℕ → DoneData
done_data status cur_cmd row_count = record {
  more = has_flag status 0x0001;
  sql_error = has_flag status 0x0002;
  attention = has_flag status 0x0020;
  server_error = has_flag status 0x0100;
  row_count = if has_flag status 0x0010 then some (to_double row_count) else none;
  cur_cmd = cur_cmd;
}

unfoldable pub read_done : Options → Read DoneData
unfolding to_double read_uint16_le read_uint32_le read_big_uint64_le before_7_2 ◌>>=◌ pure
read_done options = do
  status ← read_uint16_le
  cur_cmd ← read_uint16_le
  row_count ← if before_7_2 options then read_uint32_le else read_big_uint64_le
  pure (done_data status cur_cmd row_count)

pub read_done-IsStable : {n : ℕ} (options : Options) → IsStable n (read_done options)
unfolding read_done
read_done-IsStable options = bind-IsStable _ _ read_uint16_le-IsStable λ s.
    bind-IsStable _ _ read_uint16_le-IsStable λ c.
      bind-IsStable _ _ (if-IsStable _ _ _ read_uint32_le-IsStable read_big_uint64_le-IsStable)
        λ r. pure-IsStable _

unfoldable pub done_parser : Options → Read Token
unfolding read_done ◌>>=◌
done_parser options = do value ← read_done options; pure (done value)

unfoldable pub done_in_proc_parser : Options → Read Token
unfolding read_done ◌>>=◌
done_in_proc_parser options = do value ← read_done options; pure (done_in_proc value)

unfoldable pub done_proc_parser : Options → Read Token
unfolding read_done ◌>>=◌
done_proc_parser options = do value ← read_done options; pure (done_proc value)

module _ {n : ℕ} (options : Options) where
  pub done_parser-IsStable : IsStable n (done_parser options)
  unfolding done_parser
  done_parser-IsStable = bind-IsStable _ _ (read_done-IsStable options) λ a. pure-IsStable _

  pub done_in_proc_parser-IsStable : IsStable n (done_in_proc_parser options)
  unfolding done_in_proc_parser
  done_in_proc_parser-IsStable = bind-IsStable _ _ (read_done-IsStable options) λ a. pure-IsStable _

  pub done_proc_parser-IsStable : IsStable n (done_proc_parser options)
  unfolding done_proc_parser
  done_proc_parser-IsStable = bind-IsStable _ _ (read_done-IsStable options) λ a. pure-IsStable _
