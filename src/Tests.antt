-- ===== src/Tests.antt =====
-- The theorems at concrete inputs.
pub mod Jobs
pub mod Calls
pub mod Signing
pub mod Payloads
pub mod Scans
pub mod Tokens
pub mod Clients
pub mod Configs
pub mod Disks
