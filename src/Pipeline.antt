-- ===== src/Pipeline.antt =====
-- src/worker/pipeline.py: the analysis of a commit or a pull request.
pub mod Tables
pub mod Static
pub mod World
pub mod Save
pub mod Body
pub mod Ops
pub mod Steps
pub mod Carried
pub mod Sound
pub mod Rows
pub mod FirstWriter
pub mod Ordered
pub mod Complete
pub mod Again
pub mod Analysed
pub mod NewCommit
pub mod Slots
pub mod Samples
pub mod Tests
