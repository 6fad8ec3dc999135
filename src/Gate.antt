-- ===== src/Gate.antt =====
-- src/gate: what the gate does with a pull request that was analysed.
pub mod World
pub mod GithubReview
pub mod NativeAutomerge
pub mod Binding
pub mod Polling
pub mod Retriable
pub mod Guards
pub mod Engine
pub mod Actions
pub mod Clearance
pub mod Verified
pub mod Kept
pub mod Authorised
pub mod Rules
pub mod Safety
pub mod Callback
pub mod Clicks
pub mod Ordered
pub mod Buttons
pub mod Twins
pub mod Tests
