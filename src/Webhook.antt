-- ===== src/Webhook.antt =====
-- src/webhook: GitHub's webhook.
pub mod Secrets
pub mod World
pub mod PullRequest
pub mod CheckSuite
pub mod Github
pub mod Changes
pub mod Numbers
pub mod Carried
pub mod Requests
pub mod Freshness
pub mod Trigger
pub mod Cache
pub mod Scheduled
pub mod Debounce
pub mod Marks
pub mod Kept
pub mod Accepted
pub mod Samples
pub mod Tests
