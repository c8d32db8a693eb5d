-- ===== src/Transport.antt =====
-- src/transport: how messages travel over streams of bytes.
pub mod Slices
pub mod Io
pub mod Tcp
pub mod Async
