-- ===== src/Stream.antt =====
-- The data streams of riperf3/src/stream.rs.
pub mod Header
pub mod RecvStats
pub mod Counters
pub mod Walk
pub mod Pacing
pub mod Sender
pub mod TcpSender
pub mod Delivery
