-- ===== src/Stats/Flush.antt =====
-- internal/stats: the batch that waits for the next flush, and `Flush` of internal/app/app.go, which
-- holds its own lock from `TakeBatch` to `ReturnBatch`.
pub mod Events
pub mod Conserved
use kringkasting.Base.{ℕ, Bool, Option, none, some, [], ◌∷◌, ltb, if◌then◌else◌, Bytes}
use kringkasting.Base.Map.{Map, lookup, insert}
use kringkasting.Store.{Db, rows_of}
use kringkasting.Store.Activity.{Sighting, Batch, empty_batch, merge_daily, flush_activity}
use kringkasting.Stats.{Stats}

-- `TakeBatch`
abbrev pub take_batch : Stats → Batch × Stats
take_batch s = (s.batch, record s { batch = empty_batch })

-- A returned request time is kept where it is later; an absent time is before all.
abbrev later : ℕ → Option ℕ → ℕ
later at none = at
later at (some newer) = if ltb newer at then at else newer

unfoldable pub return_feeds : Map ℕ → Map ℕ → Map ℕ
unfolding insert lookup
return_feeds [] feeds = feeds
return_feeds ((feed, at) ∷ more) feeds =
    return_feeds more (insert feed (later at (lookup feed feeds)) feeds)

abbrev returned : Sighting → Option Sighting → Sighting
returned c none = c
returned c (some newer) = record newer {
  subscribers = elim newer.subscribers [ none ↦ c.subscribers | some n ↦ some n ];
}

unfoldable pub return_clients_of : Bytes → Map Sighting → Map (Map Sighting) → Map (Map Sighting)
unfolding insert lookup
return_clients_of feed [] clients = clients
return_clients_of feed ((client, c) ∷ more) clients =
    let seen = rows_of feed clients in
    return_clients_of feed more
      (insert feed (insert client (returned c (lookup client seen)) seen) clients)

unfoldable pub return_clients : Map (Map Sighting) → Map (Map Sighting) → Map (Map Sighting)
unfolding return_clients_of
return_clients [] clients = clients
return_clients ((feed, seen) ∷ more) clients =
    return_clients more (return_clients_of feed seen clients)

-- `ReturnBatch`
unfoldable pub return_batch : Batch → Stats → Stats
unfolding return_feeds return_clients merge_daily
return_batch b s = record s {
  batch = record {
    feeds = return_feeds b.feeds s.batch.feeds;
    clients = return_clients b.clients s.batch.clients;
    daily = merge_daily b.daily s.batch.daily;
  };
}

-- `PendingDay`
abbrev pub pending_day : Bytes → Stats → Map ℕ
pending_day day s = rows_of day s.batch.daily

-- The end of `Flush`: what becomes of the batch that it took
unfoldable pub end_flush : Bool → Batch → ℕ → Stats → Db → Stats × Db
unfolding flush_activity return_batch
end_flush committed b now s db =
    let (ok, after) = flush_activity committed b now db in
    (if ok then s else return_batch b s, after)
