-- ===== src/Tests.antt =====
-- The theorems at concrete inputs.
pub mod Data
pub mod Block
pub mod Ledger
pub mod Driver
pub mod Pipeline
pub mod Audit
pub mod Parts
pub mod Opening
pub mod Start
