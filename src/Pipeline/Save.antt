-- ===== src/Pipeline/Save.antt =====
-- src/worker/pipeline.py: the repository of an event, the storing of an analysis, and the gate after it. What
-- stands between two awaits is one transaction here, since nothing else runs in between.
mod Params
mod Register
mod Regate
mod Store
unfoldable pub use Params.*
unfoldable pub use Register.*
unfoldable pub use Regate.*
unfoldable pub use Store.*
