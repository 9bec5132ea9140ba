-- ===== src/Tests/CrawlTests.antt =====
-- internal/crawl: a short crawl, and the queue.
use kringkasting.Base.{
  ◌⊎◌, arith, ℕ, ◌≤◌, ◌≡◌, refl, true, false, none, some, [], ◌∷◌, length, All, Bytes, codes,
}
use kringkasting.Base.Map.{mem}
use kringkasting.Crawl.Queue.{Crawler, new, enqueue, start, next, enqueues, crawling, process_queue}
use kringkasting.Crawl.Queue.Workers.{Once, crawler_exclusive, process_queue-order}
use kringkasting.Crawl.Run.{EpisodePage, Round, completed, crawl_pages}
use kringkasting.Crawl.Run.Page.{Grows, Holds}
use kringkasting.Crawl.Run.Progress.{passed, LastEnds}
use kringkasting.Crawl.Run.Mark.{is_marked}
use kringkasting.Crawl.Run.Complete.{crawl_pages_keep}
use kringkasting.Tests.StoreTests.{episode_b, feed, small}

abbrev two_waiting : Crawler
two_waiting = record new {
  queue = codes "a" ∷ codes "b" ∷ [];
  queued = codes "a" ∷ codes "b" ∷ [];
  running = true;
  idle = false;
}

process_queue-order_example :
    ((process_queue 3 two_waiting).0 ≡ codes "a" ∷ codes "b" ∷ [])
    × ((process_queue 3 two_waiting).1.running ≡ false)
    × ((process_queue 3 two_waiting).1.idle ≡ true)
    × ((process_queue 3 two_waiting).1.queue ≡ [])
    × ((process_queue 3 two_waiting).1.workers ≡ [])
process_queue-order_example = process_queue-order 3 two_waiting refl (omega arith)

abbrev asked : Crawler
asked = enqueue true feed new

crawler_exclusive_example :
    (length asked.workers ≤ 1)
    × Once asked.queue
    × ((id : Bytes)
        → asked.workers ≡ crawling id ∷ []
        → (mem id asked.queue ≡ false) × (asked.current ≡ id))
    × (asked.idle ≡ true → (asked.workers ≡ []) × (asked.queue ≡ []) × (asked.running ≡ false))
    × (asked.workers ≡ [] → asked.idle ≡ true)
crawler_exclusive_example = crawler_exclusive (next start (enqueues new true feed))

-- NRK's one page of the archive.
abbrev only_page : EpisodePage
only_page = record {
  episodes = episode_b ∷ [];
  next_href = [];
  transient_failures = 0;
  clip_ids = [];
}

abbrev calm : ℕ → Round
calm i = record {
  get_page = λ f cursor skip kind. (some only_page, []);
  ids_read = true;
  committed = true;
  meanwhile = [];
  now = 1000;
  shut_down = false;
}

crawl_pages_keep_example :
    Grows feed small (crawl_pages 2 0 calm feed none [] small).1
    × All
        (λ p. Holds feed (crawl_pages 2 0 calm feed none [] small).1 p × (p.transient_failures ≡ 0))
        (passed 2 0 calm feed none [] small)
    × (is_marked feed (crawl_pages 2 0 calm feed none [] small).1 ≡ true
        → (is_marked feed small ≡ true) ⊎ LastEnds (passed 2 0 calm feed none [] small))
    × ((crawl_pages 2 0 calm feed none [] small).0 ≡ completed
        → (is_marked feed (crawl_pages 2 0 calm feed none [] small).1 ≡ true)
          × LastEnds (passed 2 0 calm feed none [] small))
crawl_pages_keep_example = crawl_pages_keep 2 0 calm feed none [] small (λ j. tt) (λ j. tt)
