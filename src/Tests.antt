-- ===== src/Tests.antt =====
-- Runs of the definitions on concrete inputs, where the theorems about them apply.
pub mod Fixtures
pub mod Conversions
pub mod Dates
pub mod Transport
pub mod Inserts
pub mod Replies
pub mod Loops
pub mod Clusters
