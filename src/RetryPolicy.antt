-- ===== src/RetryPolicy.antt =====
-- src/gate/retry_policy.py. A time is a number of microseconds of naive UTC, and the draw of
-- `random.uniform` is an argument.
pub mod Defs
pub mod Tags
pub mod Backoff
pub mod Tests
