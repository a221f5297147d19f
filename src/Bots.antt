-- ===== src/Bots.antt =====
-- src/twin/bots: the life of a bot run.
pub mod State
pub mod Models
pub mod Repository
pub mod MeetingUrl
pub mod Service
pub mod Runner
pub mod Subscriptions
pub mod Queue
pub mod Orphans
pub mod Jobs
pub mod Histories
pub mod Runtime
pub mod Merge
pub mod Life
