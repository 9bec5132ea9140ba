-- ===== src/Feed/Refresh.antt =====
-- internal/feed/refresh.go: when a feed is fetched again. Hours and days, floating-point numbers in
-- Go, are compared exactly, in milliseconds; the jitter is a fraction of two numbers.
pub mod Fresh
use kringkasting.Base.{
  ℕ, ◌+◌, ◌-◌, ◌*◌, ◌/◌, Bool, true, false, not, ◌&&◌, Option, none, some, List, [], ◌∷◌, ◌++◌, ltb,
  leb, if◌then◌else◌, Bytes, codes,
}
use kringkasting.Base.Map.{lookup, is_some}
use kringkasting.Retry
use kringkasting.Store.{Episode, Series, Db}
use kringkasting.Store.Read.{read_series, read_series_meta, SeriesMeta}

abbrev pub day : ℕ
day = 86400000

abbrev pub hour : ℕ
hour = 3600000

abbrev pub interval_by_age : ℕ → ℕ
interval_by_age age =
    if ltb age (2 * day)
    then 1
    else if ltb age (30 * day)
    then 12
    else if ltb age (180 * day)
    then 72
    else 168

-- `IntervalHoursFor`
abbrev pub interval_hours_for : Option ℕ → ℕ → ℕ
interval_hours_for none now = 3
interval_hours_for (some newest) now = interval_by_age (now - newest)

abbrev pub newest_of : List Episode → Option ℕ
newest_of [] = none
newest_of (e ∷ es) = some e.date

-- `refreshIntervalHours`
abbrev pub refresh_interval_hours : Series → ℕ → ℕ
refresh_interval_hours s now = interval_hours_for (newest_of s.episodes) now

abbrev pub refresh_key : Bytes → Bytes
refresh_key id = codes "refresh:" ++ id

abbrev pub backlog_key : Bytes → Bytes
backlog_key id = codes "backlog:" ++ id

abbrev pub progress_key : Bytes → Bytes
progress_key id = codes "refresh-progress:" ++ id

-- HasState of "refresh-progress:{id}"
abbrev pub has_progress : Bytes → Db → Bool
has_progress id db = is_some (lookup (progress_key id) db.progress)

-- `MetaIsFresh` of what was read
abbrev pub meta_fresh : Bytes → ℕ → Db → Option SeriesMeta → Bool
meta_fresh id now db none = false
meta_fresh id now db (some meta) =
    if has_progress id db && Retry.can db.retry (refresh_key id) now
    then false
    else if not meta.backlog_complete && Retry.can db.retry (backlog_key id) now
    then false
    else if not (Retry.can db.retry (refresh_key id) now)
    then true
    else leb ((now - meta.last_fetched_at) * 100)
        (interval_hours_for meta.newest_episode_at now * (85 * hour))

unfoldable pub meta_is_fresh : Bytes → ℕ → Db → Bool
unfolding is_some lookup
meta_is_fresh id now db = meta_fresh id now db (read_series_meta id db)

-- `hoursSince`
abbrev pub hours_since : ℕ → ℕ → ℕ
hours_since t now = ((now - t) + (t - now)) / hour

-- A draw of `clock.Float64`: a fraction below one
pub record Jitter : Type 0 where
  pub part : ℕ
  pub whole : ℕ

-- What `fetchSeries` does with what is stored.
pub data Decision : Type 0 where
  waits : Decision
  serves : Series → Decision
  fetches : Decision
  updates : Series → Decision

abbrev pub within_interval : Series → Jitter → ℕ → Bool
within_interval s jitter now =
    leb (hours_since s.last_fetched_at now * (100 * jitter.whole))
      (refresh_interval_hours s now * (85 * jitter.whole + 30 * jitter.part))

abbrev pub decide_stored : Bytes → Jitter → ℕ → Db → Option Series → Decision
decide_stored id jitter now db none =
    if not (Retry.can db.retry (refresh_key id) now) then waits else fetches
decide_stored id jitter now db (some s) =
    if not (Retry.can db.retry (refresh_key id) now)
    then serves s
    else if not (has_progress id db) && within_interval s jitter now
    then serves s
    else updates s

unfoldable pub decide : Bytes → Jitter → ℕ → Db → Decision
unfolding is_some lookup
decide id jitter now db = decide_stored id jitter now db (read_series id db)
