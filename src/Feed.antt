-- ===== src/Feed.antt =====
-- crates/feed: the part of the feed handlers that reads bytes.
pub mod Scan
pub mod Time
mod Tests
