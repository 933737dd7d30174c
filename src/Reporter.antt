-- ===== src/Reporter.antt =====
-- The sums over streams of riperf3/src/reporter.rs.
pub mod Summary
pub mod Groups
pub mod Conservation
pub mod Reading
pub mod Interval
pub mod Live
