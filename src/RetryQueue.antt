-- ===== src/RetryQueue.antt =====
-- src/repositories/merge_retry_repo.py over src/models/merge_retry.py: the queue of deferred merges.
pub mod Row
pub mod Defs
pub mod Claim
pub mod Invariant
pub mod Sound
pub mod Selection
pub mod Claims
pub mod Granted
pub mod Lookup
pub mod Ownership
pub mod Enqueue
pub mod Cleanup
pub mod Samples
pub mod Tests
