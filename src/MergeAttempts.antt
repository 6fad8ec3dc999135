-- ===== src/MergeAttempts.antt =====
-- The recorded merge attempts: the definitions, and what is proved of them.
pub mod Defs
pub mod Lifecycle
pub mod Reports
pub mod Counts
pub mod Tests
