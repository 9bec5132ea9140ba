-- ===== src/Lib.antt =====
-- kringkasting turns NRK's podcast catalogue into open RSS feeds: a Go program with an SQLite
-- database, which fetches series and episodes from NRK, keeps them, and crawls each archive in the
-- background. This library models its core and proves what makes it correct.
--
-- Parts, by file, with the source that each models:
--   Base       helpers: tests on numbers, lists, byte texts, maps by byte keys
--   Retry      internal/retry/retry.go: durable retry deadlines (At, Can, Defer, SetDeadline, Clear,
--              ParseRetryAfter); a table is a map from the keys "retry:…" to the decoded states
--   FeedId     internal/feedid/feedid.go: Valid, Parse, Season
--   Store      internal/store: the tables as maps by primary key (Store), the writes (Write, Videos,
--              Failures, Delete), the reads (Read), all of them as steps of a history (History),
--              and a write and a read taken apart into their own steps (Steps)
--   Crawl      internal/crawl/backlog.go: the queue of the crawler as interleavings of the sections
--              under its mutex (Queue), and the crawl of one feed, page by page (Run)
--   Feed       internal/feed/cache.go: the cache of rendered feeds (Cache), `Render` as its two
--              sections under the mutex, and the requests that use it together with the store
--              (Cache/Requests, and Cache/Races with the steps of the store); internal/feed/refresh.go: the decisions when to fetch (Refresh)
--              and the fetches, on the store, with `GetNewEpisodes` of Nrk (Fetch), `fetchSeries`
--              and the sections of `GetSeries` under its mutex (Series);
--              internal/feed/xml.go: the XML writer (Xml) with a reader that is the
--              specification of it (Xml/Reader); internal/feed/rss.go: the document of a series (Rss)
--   Nrk        internal/nrk/nrk.go: the walk of a refresh along NRK's listing (NewEpisodes), the
--              lookup of an episode's download link and the count of its failures (Media);
--              the archive pages (Archive); internal/nrk/http.go: the slots and what each reply
--              leaves (Upstream)
--   Stats      internal/stats: the counters and the health alerts, the batch on its way to the
--              tables of internal/store/activity.go (Store/Activity) through `Flush` of
--              internal/app/app.go (Flush), the names of the clients (Clients)
--   NrkLink    internal/nrklink/nrklink.go: pasted links; url.Parse is a parameter
--   Video      internal/video/worker.go: the checks of a round and the recovery of clip references;
--              internal/nrk/video.go: the lookup of one clip
--   Web        internal/web/ratelimit.go: the token buckets (RateLimit); the tokens, which are
--              float64 in Go, are counted exactly
--   Tests      runs on small inputs
-- ReadSeries and the writes are single steps of the store, but for the cache against the store
-- (Store/Steps, Feed/Cache/Races): there a write commits first and moves the version after, and a
-- read takes the version and then makes its two selects, with any other steps in between.
-- The crawl uses the store and the retry deadlines as they are modelled here, and the cache is
-- proved against the versions of the store. NRK's answers, the
-- outcome of each transaction, the writes of other goroutines in between and the readings of the
-- clock are arguments, so a theorem holds for all of them.
--
-- Texts are lists of bytes. Times are Unix milliseconds as natural numbers, after the epoch; an
-- int64 holds them with room to spare, so no overflow is written out. Go maps and tables are
-- association lists. The loop of a crawl has the program's own bound of 200 pages; the eviction
-- loop of the cache has as many rounds as there are documents, each of which removes one. The
-- XML reader, which is no part of the program, runs on fuel, and reads with any fuel above the
-- number of tags and attributes counted by `cost`. The loop of the
-- crawler's goroutine has fuel for its rounds, one more than feeds wait. No other loop needs fuel.
--
-- Not modelled: the HTTP server and its pages, templates, passkeys, the reports, the
-- logs, the start-up and the migrations of the database, and so far the other requests of the NRK
-- client (GetSeries and GetSeason among them, whose results are arguments of the fetches), the
-- client keys of the rate limiter and the queue of the video
-- worker. A logged database error of a statement without a result is taken
-- not to occur.
mod Base
pub mod Retry
pub mod FeedId
pub mod Store
pub mod Crawl
pub mod Feed
pub mod Nrk
pub mod Web
pub mod Stats
pub mod NrkLink
pub mod Video
mod Tests
