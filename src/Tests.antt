-- ===== src/Tests.antt =====
-- The theorems at concrete inputs.
pub mod Decisions
pub mod Names
pub mod Passes
