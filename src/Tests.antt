-- ===== src/Tests.antt =====
-- The theorems at concrete inputs.
pub mod Network
pub mod Database
pub mod Programs
pub mod Stats
