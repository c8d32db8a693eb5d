-- ===== src/Transport/Async.antt =====
-- src/transport/async: a pipe over an asynchronous stream, from its handshake to its end.
pub mod Stub
pub mod Active
pub mod State
pub mod History
pub mod Accounts
pub mod Handshake
pub mod Phases
pub mod Lifecycle
mod Examples
