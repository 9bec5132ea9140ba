-- ===== src/Stats.antt =====
-- internal/stats: the counters of the dashboard, in memory. `day_of` stands for the formatting of a
-- day in the server's time zone, and `subscribers_match` for the pattern of clients.go, with the
-- digits that it finds. Times are Unix milliseconds; a time that was never set is none.
pub mod Alerts
pub mod Flush
pub mod Clients
use kringkasting.Base.{
  ℕ, zero, suc, ◌+◌, ◌-◌, ◌*◌, ◌/◌, ◌%◌, ◌^◌, ◌≤◌, ◌<◌, min, max, String, ◌≡◌, refl, sym, ap, ◌∙◌,
  ◌≢◌, ◌↔◌, ◌⊎◌, inl, inr, Bool, true, false, not, ◌&&◌, ◌||◌, Option, none, some, List, [], ◌∷◌,
  ◌++◌, map, append_assoc, append-nil, arith, ltb, leb, ◌==◌, if◌then◌else◌, ltb→lt, lt→ltb, leb→le,
  le→leb, ==_iff, Bool-cases, Option-cases, length, get_elem?, set, take, drop, length-append,
  length-take-le, length-drop, All, All-append, All-left, All-right, Bytes, codes, same, same_iff,
  same_refl, append_cancel_left, differ, All-middle, All-map,
}
use kringkasting.Base.Map.{
  Map, lookup, insert, delete, is_some, lookup-insert, lookup-insert_self, lookup-delete,
  length-insert-le, length-insert_present, length-delete-le, mem, keys, keys_where, mem-keys,
  mem-append, lookup-delete_self, lookup-delete_ne, lookup-insert_ne, Distinct, insert-Distinct,
  passes, mem-keys_where, remove, mem-remove,
}
use kringkasting.Base.Ascii.{contains, decimal}
use kringkasting.Store.{rows_of}
use kringkasting.Store.Activity.{Sighting, Batch, empty_batch, add_daily}

-- The keys of the daily counters.
abbrev pub day_nrk : Bytes
day_nrk = codes "nrk"

abbrev pub day_nrk_errors : Bytes
day_nrk_errors = codes "nrk_errors"

abbrev pub day_feeds_200 : Bytes
day_feeds_200 = codes "feeds_200"

abbrev pub day_feeds_304 : Bytes
day_feeds_304 = codes "feeds_304"

abbrev pub day_searches : Bytes
day_searches = codes "searches"

abbrev pub day_rate_limited : Bytes
day_rate_limited = codes "rate_limited"

abbrev pub health_failure_threshold : ℕ
health_failure_threshold = 8

-- thirty minutes
abbrev pub health_alert_throttle : ℕ
health_alert_throttle = 1800000

-- `Categories`; the names are Norwegian in the program
pub data Category : Type 0 where
  catalog episode_list manifest file_size search other : Category

pub record Bucket : Type 0 where
  pub requests : ℕ
  pub errors : ℕ

pub record Buckets : Type 0 where
  pub of_catalog : Bucket
  pub of_episode_list : Bucket
  pub of_manifest : Bucket
  pub of_file_size : Bucket
  pub of_search : Bucket
  pub of_other : Bucket

pub record Stats : Type 0 where
  pub upstream : Buckets
  pub feeds_200 : ℕ
  pub feeds_304 : ℕ
  pub searches : ℕ
  pub limited : ℕ
  pub consecutive_failures : ℕ
  pub last_health_alert_at : Option ℕ
  pub last_success : Option ℕ
  pub last_failure : Option ℕ
  pub last_failure_status : ℕ
  pub failing_since : Option ℕ
  -- when, and how many feeds it deleted
  pub last_gc : Option (ℕ × ℕ)
  pub batch : Batch

abbrev no_requests : Bucket
no_requests = record { requests = 0; errors = 0 }

-- `New`
abbrev pub new_stats : Stats
new_stats = record {
  upstream = record {
    of_catalog = no_requests;
    of_episode_list = no_requests;
    of_manifest = no_requests;
    of_file_size = no_requests;
    of_search = no_requests;
    of_other = no_requests;
  };
  feeds_200 = 0;
  feeds_304 = 0;
  searches = 0;
  limited = 0;
  consecutive_failures = 0;
  last_health_alert_at = none;
  last_success = none;
  last_failure = none;
  last_failure_status = 0;
  failing_since = none;
  last_gc = none;
  batch = empty_batch;
}

unfoldable pub categorize : Bytes → Bytes → Category
unfolding contains
categorize url method =
    if same method (codes "HEAD")
    then file_size
    else if contains url (codes "/playback/manifest/")
    then manifest
    else if contains url (codes "/radio/search/search")
    then search
    else if contains url (codes "/episodes")
    then episode_list
    else if contains url (codes "/radio/catalog/")
        || contains url (codes "/radio/search/categories/")
    then catalog
    else other

-- `IsHealthFailure`
abbrev pub is_health_failure : ℕ → Bool
is_health_failure status = ((status == 0 || leb 500 status) || status == 429) || status == 403

-- A status that counts as an error.
abbrev pub is_error : ℕ → Bool
is_error status = status == 0 || leb 500 status

abbrev pub count_bucket : Bool → Bucket → Bucket
count_bucket failed b = record {
  requests = b.requests + 1;
  errors = if failed then b.errors + 1 else b.errors;
}

abbrev pub count_in : Category → Bool → Buckets → Buckets
count_in catalog failed b = record b { of_catalog = count_bucket failed b.of_catalog }
count_in episode_list failed b = record b {
  of_episode_list = count_bucket failed b.of_episode_list;
}
count_in manifest failed b = record b { of_manifest = count_bucket failed b.of_manifest }
count_in file_size failed b = record b { of_file_size = count_bucket failed b.of_file_size }
count_in search failed b = record b { of_search = count_bucket failed b.of_search }
count_in other failed b = record b { of_other = count_bucket failed b.of_other }

-- `countDay`
abbrev pub count_day : Bytes → Bytes → Stats → Stats
count_day day key s = record s {
  batch = record s.batch { daily = add_daily day key 1 s.batch.daily };
}

-- Whether the time since the last alert is over the throttle.
abbrev pub is_over : Option ℕ → ℕ → Bool
is_over none now = true
is_over (some last) now = ltb health_alert_throttle (now - last)

-- The health after a response, and whether it alerts.
unfoldable pub record_health : ℕ → ℕ → Stats → Bool × Stats
record_health status now s =
    if not (is_health_failure status)
    then (false, record s { consecutive_failures = 0; last_success = some now })
    else let noted = record s {
      failing_since = if s.consecutive_failures == 0 then some now else s.failing_since;
      last_failure = some now;
      last_failure_status = status;
      consecutive_failures = s.consecutive_failures + 1;
    } in
      if leb health_failure_threshold noted.consecutive_failures
        && is_over s.last_health_alert_at now
      then (true, record noted { last_health_alert_at = some now })
      else (false, noted)

module _ (day_of : ℕ → Bytes) where
  -- `RecordUpstreamRequest`
  unfoldable pub record_upstream_request : Bytes → Bytes → ℕ → ℕ → Stats → Bool × Stats
  unfolding categorize add_daily record_health
  record_upstream_request url method status now s =
      let bucketed = record s {
        upstream = count_in (categorize url method) (is_error status) s.upstream;
      } in
      let counted = count_day (day_of now) day_nrk bucketed in
      let noted =
        if is_error status then count_day (day_of now) day_nrk_errors counted else counted in
      record_health status now noted

  -- `RecordFeedServed`
  unfoldable pub record_feed_served : Bool → ℕ → Stats → Stats
  unfolding add_daily
  record_feed_served not_modified now s =
      if not_modified
      then count_day (day_of now) day_feeds_304 (record s { feeds_304 = s.feeds_304 + 1 })
      else count_day (day_of now) day_feeds_200 (record s { feeds_200 = s.feeds_200 + 1 })

  -- `RecordSearchServed`
  unfoldable pub record_search_served : ℕ → Stats → Stats
  unfolding add_daily
  record_search_served now s =
      count_day (day_of now) day_searches (record s { searches = s.searches + 1 })

  -- `RecordRateLimited`
  unfoldable pub record_rate_limited : ℕ → Stats → Stats
  unfolding add_daily
  record_rate_limited now s =
      count_day (day_of now) day_rate_limited (record s { limited = s.limited + 1 })

-- What a sighting keeps of the one before it.
abbrev pub keep_count : Option Sighting → Option ℕ → Option ℕ
keep_count none count = count
keep_count (some previous) none = previous.subscribers
keep_count (some previous) (some n) = some n

-- `RecordFeedRequest`, with the name and the count of its user agent
unfoldable pub record_feed_request : Bytes → Bytes → Option ℕ → ℕ → Stats → Stats
unfolding lookup insert
record_feed_request feed client count now s =
    let seen = rows_of feed s.batch.clients in
    record s {
      batch = record s.batch {
        feeds = insert feed now s.batch.feeds;
        clients =
            insert feed
              (insert client
                (record { seen_at = now; subscribers = keep_count (lookup client seen) count })
                seen)
              s.batch.clients;
      };
    }

-- `RecordGcRun`
abbrev pub record_gc_run : ℕ → ℕ → Stats → Stats
record_gc_run deleted now s = record s { last_gc = some (now, deleted) }

-- `Snapshot`, less the fields that it copies
pub record Snapshot : Type 0 where
  pub upstream_total : ℕ
  pub upstream_errors : ℕ
  pub shown_failing_since : Option ℕ

abbrev pub total : (Bucket → ℕ) → Buckets → ℕ
total f b =
    f b.of_catalog
    + f b.of_episode_list
    + f b.of_manifest
    + f b.of_file_size
    + f b.of_search
    + f b.of_other

unfoldable pub snapshot : Stats → Snapshot
snapshot s = record {
  upstream_total = total (λ b. b.requests) s.upstream;
  upstream_errors = total (λ b. b.errors) s.upstream;
  shown_failing_since = if ltb 0 s.consecutive_failures then s.failing_since else none;
}
