-- ===== src/Client.antt =====
-- The client of riperf3/src/client.rs.
pub mod Types
pub mod Builder
pub mod Params
pub mod Valid
pub mod Context
pub mod Drive
pub mod Handlers
pub mod Run
