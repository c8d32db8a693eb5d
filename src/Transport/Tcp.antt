-- ===== src/Transport/Tcp.antt =====
-- src/transport/tcp: messages over a TCP stream.
pub mod Send
pub mod Remaining
pub mod Sent
pub mod Progress
pub mod Recv
pub mod Received
pub mod Arrival
pub mod Stub
pub mod Delivery
pub mod Framing
pub mod Ending
pub mod Reception
pub mod RoundTrip
pub mod Pipe
mod Examples
