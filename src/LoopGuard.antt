-- ===== src/LoopGuard.antt =====
-- src/webhook/loop_guard.py: which senders are bots, and how many events of a bot are let through.
pub mod Defs
pub mod Window
pub mod Limit
pub mod Bounds
pub mod Tests
