-- ===== src/Crawler.antt =====
-- internal/crawler: the cache of discovered hashes, the download queue, and the events between them.
pub mod Cache
pub mod Queue
pub mod Events
pub mod Jobs
pub mod Search
pub mod Saved
