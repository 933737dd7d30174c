-- ===== src/Protocol.antt =====
-- The control protocol of riperf3/src/protocol.rs.
pub mod State
pub mod Params
pub mod Framing
pub mod JsonText
pub mod Messages
pub mod UdpConnect
