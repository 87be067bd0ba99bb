-- ===== src/Connection/Run/Order/History.antt =====
-- The order of the call-backs in any history of a connection of lib/connection.js.
