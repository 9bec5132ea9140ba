-- ===== src/Stats/Flush/Events.antt =====
-- What is recorded, and the flushes that run beside it, as a history of events.
use kringkasting.Base.{
  ℕ, ◌+◌, Bool, Option, none, some, List, [], ◌∷◌, if◌then◌else◌, Bytes, codes, same,
}
use kringkasting.Store.{Db}
use kringkasting.Store.Activity.{Batch}
use kringkasting.Store.Activity.Daily.{counter, IsDaily}
use kringkasting.Stats.{
  Stats, is_error, record_upstream_request, record_feed_served, record_search_served,
  record_rate_limited, record_feed_request,
}
use kringkasting.Stats.Flush.{take_batch, end_flush}

-- What happens to the counters: what is recorded, and the begin and the end of a flush.
pub data Event : Type 0 where
  upstream_request : Bytes → Bytes → ℕ → Event
  feed_served : Bool → Event
  search_served rate_limited : Event
  feed_request : Bytes → Bytes → Option ℕ → Event
  flush_begins : Event
  flush_ends : Bool → Event

-- The counters, the batch that a flush took, and the database.
pub record Counting : Type 0 where
  pub stats : Stats
  pub in_hand : Option Batch
  pub db : Db

-- A second flush waits for the lock, and none ends that has not begun.
abbrev pub begin_flush : Stats → Option Batch → Db → Counting
begin_flush s none db =
    let (batch, emptied) = take_batch s in record { stats = emptied; in_hand = some batch; db = db }
begin_flush s (some batch) db = record { stats = s; in_hand = some batch; db = db }

abbrev pub close_flush : Bool → ℕ → Stats → Option Batch → Db → Counting
close_flush committed now s none db = record { stats = s; in_hand = none; db = db }
close_flush committed now s (some batch) db =
    let (kept, after) = end_flush committed batch now s db in
    record { stats = kept; in_hand = none; db = after }

module _ (day_of : ℕ → Bytes) where
  abbrev pub on_event : Event → ℕ → Counting → Counting
  on_event (upstream_request url method status) now c = record c {
    stats = (record_upstream_request day_of url method status now c.stats).1;
  }
  on_event (feed_served not_modified) now c = record c {
    stats = record_feed_served day_of not_modified now c.stats;
  }
  on_event search_served now c = record c { stats = record_search_served day_of now c.stats }
  on_event rate_limited now c = record c { stats = record_rate_limited day_of now c.stats }
  on_event (feed_request feed client count) now c = record c {
    stats = record_feed_request feed client count now c.stats;
  }
  on_event flush_begins now c = begin_flush c.stats c.in_hand c.db
  on_event (flush_ends committed) now c = close_flush committed now c.stats c.in_hand c.db

  abbrev pub run_events : List (Event × ℕ) → Counting → Counting
  run_events [] c = c
  run_events ((e, now) ∷ es) c = run_events es (on_event e now c)

-- How much an event counts under a key.
abbrev pub tally : Bytes → Bytes → ℕ
tally k key = if same key k then 1 else 0

abbrev pub counts : Bytes → Event → ℕ
counts k (upstream_request url method status) =
    tally k (codes "nrk") + (if is_error status then tally k (codes "nrk_errors") else 0)
counts k (feed_served not_modified) =
    if not_modified then tally k (codes "feeds_304") else tally k (codes "feeds_200")
counts k search_served = tally k (codes "searches")
counts k rate_limited = tally k (codes "rate_limited")
counts k (feed_request feed client count) = 0
counts k flush_begins = 0
counts k (flush_ends committed) = 0

-- How much a history counts under a day and a key.
abbrev pub counted : (ℕ → Bytes) → Bytes → Bytes → List (Event × ℕ) → ℕ
counted day_of d k [] = 0
counted day_of d k ((e, now) ∷ es) =
    (if same (day_of now) d then counts k e else 0) + counted day_of d k es

-- The counter in the batch of a flush that is under way.
abbrev pub counter_in_hand : Bytes → Bytes → Option Batch → ℕ
counter_in_hand d k none = 0
counter_in_hand d k (some b) = counter d k b.daily

abbrev pub all_of : Bytes → Bytes → Counting → ℕ
all_of d k c =
    counter d k c.stats.batch.daily + counter_in_hand d k c.in_hand + counter d k c.db.daily_table

abbrev pub IsDailyInHand : Option Batch → Type 0
IsDailyInHand none = Unit
IsDailyInHand (some b) = IsDaily b.daily

-- No day and no key stands twice: what is pending, what a flush took, what is stored.
abbrev pub IsSound : Counting → Type 0
IsSound c = IsDaily c.stats.batch.daily × IsDailyInHand c.in_hand × IsDaily c.db.daily_table
