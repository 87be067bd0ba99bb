-- ===== src/Tests.antt =====
-- Concrete runs: the theorems applied to small inputs.
mod Connections
mod Handlers
mod Logins
mod Payloads
mod Streams
mod Tokens
mod Values
mod Writes
