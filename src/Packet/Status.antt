-- ===== src/Packet/Status.antt =====
-- The STATUS flags of lib/packet.js.
use tedious.Prelude.{ℕ}

abbrev pub normal : ℕ
normal = 0x00

abbrev pub eom : ℕ
eom = 0x01

abbrev pub ignore : ℕ
ignore = 0x02

abbrev pub reset_connection : ℕ
reset_connection = 0x08
