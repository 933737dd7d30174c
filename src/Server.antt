-- ===== src/Server.antt =====
-- The server of riperf3/src/server.rs.
pub mod Builder
pub mod Config
pub mod Negotiate
pub mod Agreement
pub mod Refusal
pub mod RateWindow
pub mod Accept
pub mod Serve
pub mod Round
