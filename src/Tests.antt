-- ===== src/Tests.antt =====
-- Runs of the definitions at concrete inputs, and the theorems applied to them.
pub mod Data
pub mod Prefixes
pub mod Options
pub mod Sessions
pub mod Elections
pub mod Changes
pub mod System
pub mod Wire
pub mod Builders
