-- ===== src/Auth.antt =====
-- The credentials of riperf3/src/auth.rs. Keys, encryption, base64 and SHA-256 are other crates',
-- and enter as a record of their functions.
pub mod Token
pub mod TokenRoundTrip
pub mod Credentials
pub mod Admission
