-- ===== src/Store.antt =====
-- internal/store: the tables that the other parts read and write.
pub mod Types
pub mod FeedCache
pub mod Notified
pub mod Users
pub mod Sessions
pub mod Feeds
pub mod Audit
pub mod SyncJobs
