-- ===== src/Feed.antt =====
-- internal/feed: the feed documents and their refresh.
pub mod Xml
pub mod Rss
pub mod Cache
pub mod Refresh
pub mod Fetch
pub mod Series
