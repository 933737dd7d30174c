-- ===== src/Utils.antt =====
-- riperf3/src/utils.rs: the defaults and limits, and the values that the options are parsed to.
pub mod Limits
pub mod Tos
pub mod Suffixed
