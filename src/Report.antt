-- ===== src/Report.antt =====
-- The JSON report of riperf3/src/json_report.rs: its timestamp.
pub mod HttpDate
pub mod EndBlock
