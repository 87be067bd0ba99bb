-- ===== src/Connection/Run/Settled/Final.antt =====
-- lib/connection.js: close(), on a settled connection.
use tedious.Prelude.{◌≡◌, none, length}
use tedious.Handler.{Connection}
use tedious.Connection.{final, Machine}

-- In FINAL, without a request, and every request that was taken has had its call-back called.
abbrev pub IsClosed : Machine → Type 0
IsClosed m = (m.state ≡ final) × ((m.request ≡ none) × (length m.answers ≡ m.accepted))
