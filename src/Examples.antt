-- ===== src/Examples.antt =====
-- The theorems applied to concrete inputs.
pub mod Control
pub mod Streams
pub mod Setup
pub mod Reports
pub mod Messages
pub mod Options
pub mod EndSums
pub mod Runs
pub mod Rounds
pub mod Intervals
pub mod Serving
pub mod Senders
