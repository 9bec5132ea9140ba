-- ===== src/Crawl.antt =====
-- internal/crawl/backlog.go: the background crawler. `Queue` is the queue and its goroutines, as
-- interleavings of the sections under the mutex; `Run` is one crawl of a feed.
pub mod Queue
pub mod Run
