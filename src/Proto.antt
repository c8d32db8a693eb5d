-- ===== src/Proto.antt =====
-- The protocols of src/proto and what they share.
pub mod Priolist
pub mod Pipes
pub mod Policy
pub mod Call
pub mod Answering
pub mod RequestReply
pub mod Fixtures
pub mod Ids
pub mod Push
pub mod Pull
pub mod Sub
pub mod Publ
pub mod Req
pub mod Rep
