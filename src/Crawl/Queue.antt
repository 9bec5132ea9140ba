-- ===== src/Crawl/Queue.antt =====
-- `Crawler`, `Enqueue`, `processQueue`, `recordEvent` and `Status`. What stands between Lock and
-- Unlock is one step. `workers` are the goroutines running `processQueue`: one is about to take the
-- lock at the head of its loop, or is inside `crawlSafely` with a feed. The events have texts here,
-- not times.
pub mod Workers
pub mod Events
use mathlib.Core.List.{reverse}
use kringkasting.Base.{
  ℕ, zero, suc, ◌≡◌, Bool, true, false, not, ◌||◌, none, List, [], ◌∷◌, ◌++◌, map, ltb,
  if◌then◌else◌, length, set, take, drop, Bytes, same,
}
use kringkasting.Base.Map.{delete, mem, remove}

pub data Worker : Type 0 where
  ready : Worker
  crawling : Bytes → Worker

-- `queued` is the set of the ids in the map; `idle` is whether the channel `idle` is closed.
pub record Crawler : Type 0 where
  pub queue : List Bytes
  pub queued : List Bytes
  pub running : Bool
  pub current : Bytes
  pub idle : Bool
  pub events : List Bytes
  pub cancelled : Bool
  pub workers : List Worker

-- `New`
abbrev pub new : Crawler
new = record {
  queue = [];
  queued = [];
  running = false;
  current = [];
  idle = true;
  events = [];
  cancelled = false;
  workers = [];
}

-- The queue and the set with the feed added, and a goroutine if none runs.
abbrev pub admit : Bytes → Crawler → Crawler
admit id c = record c {
  queued = id ∷ c.queued;
  queue = c.queue ++ id ∷ [];
  running = true;
  idle = if c.running then c.idle else false;
  workers = if c.running then c.workers else c.workers ++ ready ∷ [];
}

-- `Enqueue`; `allowed` is what `c.retry.Can` answered before the lock was taken
unfoldable pub enqueue : Bool → Bytes → Crawler → Crawler
unfolding mem
enqueue allowed id c =
    if not allowed then c else if mem id c.queued || c.cancelled then c else admit id c

-- The head of the loop in `processQueue`: the goroutine ends, or takes a feed.
abbrev pub drained : Crawler → Crawler
drained c = record c { queue = []; queued = []; running = false; idle = true }

-- The worker that takes the lock, with those before and after it.
unfoldable pub take_next : List Worker → List Worker → List Bytes → Crawler → Crawler
take_next before after [] c = record (drained c) { workers = before ++ after }
take_next before after (id ∷ rest) c =
    if c.cancelled
    then record (drained c) { workers = before ++ after }
    else record c { queue = rest; current = id; workers = before ++ crawling id ∷ after }

-- The second locked section of the loop, after `crawlSafely` has returned.
unfoldable pub finish : List Worker → List Worker → Bytes → Crawler → Crawler
unfolding remove
finish before after id c = record c {
  queued = remove id c.queued;
  current = [];
  workers = before ++ ready ∷ after;
}

-- The rest of the loop, by what the goroutine does after it had the lock: it has ended, or crawls a
-- feed; with what the rounds after this one do.
abbrev pub crawled : List Worker → Crawler → (Bytes → List Bytes × Crawler) → List Bytes × Crawler
crawled [] taken further = ([], taken)
crawled (ready ∷ ws) taken further = ([], taken)
crawled (crawling id ∷ ws) taken further = let (ids, d) = further id in (id ∷ ids, d)

-- `processQueue` when nothing else happens: the feeds that it crawls, in order, and the state that
-- it leaves. The fuel is for the rounds of the loop.
unfoldable pub process_queue : ℕ → Crawler → List Bytes × Crawler
unfolding take_next finish
process_queue zero c = ([], c)
process_queue (suc n) c =
    let taken = take_next [] [] c.queue c in
    crawled taken.workers taken (λ id. process_queue n (finish [] [] id taken))

-- The steps of the goroutines and of those that call the crawler, in any order.
pub data Step : Crawler → Crawler → Type 0 where
  enqueues : (c : Crawler) (allowed : Bool) (id : Bytes) → Step c (enqueue allowed id c)
  takes :
      (c : Crawler) (before after : List Worker)
      → c.workers ≡ before ++ ready ∷ after
      → Step c (take_next before after c.queue c)
  finishes :
      (c : Crawler) (before after : List Worker) (id : Bytes)
      → c.workers ≡ before ++ crawling id ∷ after
      → Step c (finish before after id c)
  cancels : (c : Crawler) → Step c (record c { cancelled = true })

pub data Reach : Crawler → Type 0 where
  start : Reach new
  next : {c d : Crawler} → Reach c → Step c d → Reach d

abbrev pub max_events : ℕ
max_events = 20

-- `recordEvent`
unfoldable pub record_event : Bytes → Crawler → Crawler
record_event message c =
    let appended = c.events ++ message ∷ [] in
    record c { events = if ltb max_events (length appended) then drop 1 appended else appended }

-- `Status`
pub record Status : Type 0 where
  pub queue_length : ℕ
  pub is_running : Bool
  pub recent : List Bytes
  pub current_feed : Bytes
  pub waiting : List Bytes

unfoldable pub status : Crawler → Status
status c = record {
  queue_length = length c.queue;
  is_running = c.running;
  recent = reverse c.events;
  current_feed = c.current;
  waiting = c.queue;
}
