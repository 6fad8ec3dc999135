-- ===== src/GateDecisions.antt =====
-- The decisions of the gate: the definitions, and what is proved of them.
pub mod Defs
pub mod Lease
pub mod Manual
pub mod Tests
