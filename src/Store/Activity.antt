-- ===== src/Store/Activity.antt =====
-- internal/store/activity.go: the use of the feeds. A sighting stands under its feed and its client,
-- as the statistics keep it; the error of a read is not modelled.
pub mod Daily
use kringkasting.Base.{
  ℕ, zero, suc, ◌+◌, ◌-◌, ◌*◌, ◌/◌, ◌%◌, ◌^◌, ◌≤◌, ◌<◌, min, max, String, ◌≡◌, refl, sym, ap, ◌∙◌,
  ◌≢◌, ◌↔◌, ◌⊎◌, inl, inr, Bool, true, false, not, ◌&&◌, ◌||◌, Option, none, some, List, [], ◌∷◌,
  ◌++◌, map, append_assoc, append-nil, arith, ltb, leb, ◌==◌, if◌then◌else◌, ltb→lt, lt→ltb, leb→le,
  le→leb, ==_iff, Bool-cases, Option-cases, length, get_elem?, set, take, drop, length-append,
  length-take-le, length-drop, All, All-append, All-left, All-right, Bytes, codes, same, same_iff,
  same_refl, append_cancel_left, differ, All-middle, All-map,
}
use kringkasting.Base.Map.{
  Map, lookup, insert, delete, is_some, lookup-insert, lookup-insert_self, lookup-delete,
  length-insert-le, length-insert_present, length-delete-le, mem, keys, keys_where, mem-keys,
  mem-append, lookup-delete_self, lookup-delete_ne, lookup-insert_ne, Distinct, insert-Distinct,
  passes, mem-keys_where, remove, mem-remove,
}
use kringkasting.Store.{Db, ActivityRow, ClientRow, rows_of, or_zero, coalesce}

-- `ClientSighting`, under its feed and its client
pub record Sighting : Type 0 where
  pub seen_at : ℕ
  pub subscribers : Option ℕ

-- `ActivityBatch`; the clients by feed and name
pub record Batch : Type 0 where
  pub feeds : Map ℕ
  pub clients : Map (Map Sighting)
  pub daily : Map (Map ℕ)

abbrev pub empty_batch : Batch
empty_batch = record { feeds = []; clients = []; daily = [] }

-- `Empty`
abbrev pub none_of {ℓ} : {V : Type ℓ} → Map V → Bool
none_of [] = true
none_of (row ∷ rows) = false

abbrev pub is_empty : Batch → Bool
is_empty b = none_of b.feeds && none_of b.clients && none_of b.daily

-- Adds to a counter of a day: `s.daily[day][key] += n`, and the upsert of `daily_stats`.
unfoldable pub add_daily : Bytes → Bytes → ℕ → Map (Map ℕ) → Map (Map ℕ)
unfolding lookup insert
add_daily day key n daily =
    insert day (insert key (or_zero (lookup key (rows_of day daily)) + n) (rows_of day daily)) daily

-- The counters of one day, and of all, added to those that are there: the loops over `Daily`.
unfoldable pub merge_day : Bytes → Map ℕ → Map (Map ℕ) → Map (Map ℕ)
unfolding add_daily
merge_day day [] daily = daily
merge_day day ((key, n) ∷ counters) daily = merge_day day counters (add_daily day key n daily)

unfoldable pub merge_daily : Map (Map ℕ) → Map (Map ℕ) → Map (Map ℕ)
unfolding merge_day
merge_daily [] daily = daily
merge_daily ((day, counters) ∷ more) daily = merge_daily more (merge_day day counters daily)

-- The upsert of `feed_activity`
abbrev requested : ℕ → Option ActivityRow → ActivityRow
requested at none = record { first_requested_at = at; last_requested_at = at }
requested at (some row) = record row { last_requested_at = max row.last_requested_at at }

unfoldable pub write_feeds : Map ℕ → Map ActivityRow → Map ActivityRow
unfolding insert lookup
write_feeds [] table = table
write_feeds ((feed, at) ∷ feeds) table =
    write_feeds feeds (insert feed (requested at (lookup feed table)) table)

-- The upsert of `feed_clients`
abbrev sighted : Sighting → Option ClientRow → ClientRow
sighted c none = record { last_seen_at = c.seen_at; subscribers = c.subscribers }
sighted c (some row) = record {
  last_seen_at = max row.last_seen_at c.seen_at;
  subscribers = coalesce c.subscribers row.subscribers;
}

unfoldable pub write_clients_of : Bytes → Map Sighting → Map (Map ClientRow) → Map (Map ClientRow)
unfolding insert lookup
write_clients_of feed [] table = table
write_clients_of feed ((client, c) ∷ clients) table =
    let rows = rows_of feed table in
    write_clients_of feed clients
      (insert feed (insert client (sighted c (lookup client rows)) rows) table)

unfoldable pub write_clients : Map (Map Sighting) → Map (Map ClientRow) → Map (Map ClientRow)
unfolding write_clients_of
write_clients [] table = table
write_clients ((feed, clients) ∷ more) table =
    write_clients more (write_clients_of feed clients table)

-- The first of `activity-since` stays.
abbrev since : Batch → ℕ → Option ℕ → Option ℕ
since b now (some at) = some at
since b now none = if none_of b.feeds then none else some now

-- `FlushActivity`, and whether it returns no error
unfoldable pub flush_activity : Bool → Batch → ℕ → Db → Bool × Db
unfolding merge_daily write_feeds write_clients
flush_activity committed b now db =
    if is_empty b
    then (true, db)
    else if committed
    then (
      true,
      record db {
        activity_table = write_feeds b.feeds db.activity_table;
        client_table = write_clients b.clients db.client_table;
        daily_table = merge_daily b.daily db.daily_table;
        activity_since = since b now db.activity_since;
      },
    )
    else (false, db)

-- `FeedActivity`
pub record FeedActivity : Type 0 where
  pub requested_at : ℕ
  pub clients_seen : List Bytes
  pub subscriber_total : Option ℕ

unfoldable pub activity_of : Map ActivityRow → Map FeedActivity
activity_of [] = []
activity_of ((feed, row) ∷ rows) =
    (
      feed,
      record { requested_at = row.last_requested_at; clients_seen = []; subscriber_total = none },
    )
    ∷ activity_of rows

-- A row of `feed_clients` with its key
abbrev pub Seen : Type 0
Seen = Bytes × (Bytes × ClientRow)

-- ORDER BY last_seen_at DESC
unfoldable pub insert_seen : Seen → List Seen → List Seen
insert_seen r [] = r ∷ []
insert_seen r (q ∷ qs) =
    let rest = insert_seen r qs in
    if ltb r.1.1.last_seen_at q.1.1.last_seen_at then q ∷ rest else r ∷ q ∷ qs

unfoldable pub seen_of : ℕ → Bytes → Map ClientRow → List Seen → List Seen
unfolding insert_seen
seen_of from feed [] qs = qs
seen_of from feed ((client, row) ∷ rows) qs =
    let rest = seen_of from feed rows qs in
    if leb from row.last_seen_at then insert_seen (feed, (client, row)) rest else rest

unfoldable pub seen_since : ℕ → Map (Map ClientRow) → List Seen
unfolding seen_of
seen_since from [] = []
seen_since from ((feed, rows) ∷ table) = seen_of from feed rows (seen_since from table)

abbrev pub add_up : Option ℕ → Option ℕ → Option ℕ
add_up a none = a
add_up none (some n) = some n
add_up (some m) (some n) = some (n + m)

abbrev noted : Seen → Option FeedActivity → Map FeedActivity → Map FeedActivity
noted r none activity = activity
noted r (some a) activity =
    insert r.0
      (record a {
        clients_seen = a.clients_seen ++ (r.1.0 ∷ []);
        subscriber_total = add_up a.subscriber_total r.1.1.subscribers;
      })
      activity

unfoldable pub note_clients : List Seen → Map FeedActivity → Map FeedActivity
unfolding insert lookup
note_clients [] activity = activity
note_clients (r ∷ rs) activity = note_clients rs (noted r (lookup r.0 activity) activity)

-- `ReadFeedActivity`
unfoldable pub read_feed_activity : ℕ → Db → Map FeedActivity
unfolding activity_of seen_since note_clients
read_feed_activity from db =
    note_clients (seen_since from db.client_table) (activity_of db.activity_table)

-- SQLite's order of texts, by their bytes
unfoldable pub text_le : Bytes → Bytes → Bool
text_le [] t = true
text_le (c ∷ s) [] = false
text_le (c ∷ s) (d ∷ t) = let rest = text_le s t in if c == d then rest else ltb c d

-- The days of the table that a test keeps: `ReadDailyStats` and `PruneDailyStats`.
unfoldable pub days_from : Bytes → Map (Map ℕ) → Map (Map ℕ)
unfolding text_le
days_from from [] = []
days_from from ((day, counters) ∷ daily) =
    let rest = days_from from daily in if text_le from day then (day, counters) ∷ rest else rest

unfoldable pub read_daily_stats : Bytes → Db → Map (Map ℕ)
unfolding days_from
read_daily_stats from db = days_from from db.daily_table

unfoldable pub prune_daily_stats : Bytes → Db → Db
unfolding days_from
prune_daily_stats before db = record db { daily_table = days_from before db.daily_table }
