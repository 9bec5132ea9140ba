-- ===== src/Tests.antt =====
-- Runs of the definitions on small inputs, and each theorem at an input that meets its hypotheses.
mod RetryTests
mod FeedTests
mod StatsTests
pub mod StoreTests
mod CrawlTests
mod CacheTests
mod NrkTests
mod WebTests
mod RefreshTests
mod UpstreamTests
mod LinkTests
mod RssTests
mod ArchiveTests
mod VideoTests
mod FetchTests
