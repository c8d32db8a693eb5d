-- ===== src/Core.antt =====
-- The types of src/core that the protocols and the sockets share.
pub mod Message
pub mod Endpoint
pub mod Config
pub mod Context
pub mod Log
pub mod Probe
pub mod Socket
pub mod Bytes
pub mod Bits
