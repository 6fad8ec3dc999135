-- ===== src/RetryWorker.antt =====
-- src/services/merge_retry_service.py: the worker that retries the deferred merges.
pub mod World
pub mod Defs
pub mod Process
pub mod Parts
pub mod Checks
pub mod Turn
pub mod Safety
pub mod Outcome
pub mod Released
pub mod Progress
pub mod Tests
