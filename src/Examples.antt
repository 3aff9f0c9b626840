-- ===== src/Examples.antt =====
-- The theorems of the library at concrete inputs.
pub mod Wire
pub mod Fields
pub mod Race
pub mod Session
pub mod Tls
pub mod Setup
pub mod Talk
