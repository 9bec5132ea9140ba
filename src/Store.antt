-- ===== src/Store.antt =====
-- internal/store: the SQLite database. models.go and the schemas of store.go and activity.go are
-- here; queries.go and video.go are in the children, a function for each method. A table is a map
-- by its primary key, a table with a two-part key a map of maps. `app_state` is split by the
-- prefixes of its keys, which stay written out. Times are Unix milliseconds. A transaction that can
-- fail takes its outcome as the argument `committed`; a statement whose error is only logged is
-- taken to succeed.
pub mod Write
pub mod Read
pub mod Failures
pub mod Videos
pub mod Delete
pub mod History
pub mod Upsert
pub mod Archive
pub mod Shown
pub mod Versions
pub mod Steps
pub mod Activity
use kringkasting.Base.{ℕ, ◌+◌, ◌*◌, Bool, Option, none, some, List, [], map, Bytes}
use kringkasting.Base.Map.{Map, lookup, insert}
use kringkasting.Retry.{RetryTable}

pub data CatalogKind : Type 0 where
  podcast series : CatalogKind

-- `Episode`
pub record Episode : Type 0 where
  pub id : Bytes
  pub title : Bytes
  pub subtitle : Option Bytes
  pub url : Bytes
  pub share_link : Bytes
  pub date : ℕ
  pub duration_in_seconds : ℕ
  pub bytes : Option ℕ
  pub clip_id : Option Bytes
  pub video_url : Option Bytes

-- A row of `episodes`: the episode under its key, and when to look for its video again.
pub record EpisodeRow : Type 0 where
  pub episode : Episode
  pub open episode use *
  pub video_next_check_at : Option ℕ

-- `Series`, as it is read and written
pub record Series : Type 0 where
  pub id : Bytes
  pub title : Bytes
  pub subtitle : Option Bytes
  pub link : Bytes
  pub image_url : Bytes
  pub last_fetched_at : ℕ
  pub backlog_complete : Bool
  pub backlog_cursor : Option Bytes
  pub catalog_kind : Option CatalogKind
  pub is_umbrella : Bool
  pub metadata_refreshed_at : Option ℕ
  pub episodes : List Episode
  pub version : ℕ

-- A row of `series`; its key is the id.
pub record SeriesRow : Type 0 where
  pub title : Bytes
  pub subtitle : Option Bytes
  pub link : Bytes
  pub image_url : Bytes
  pub last_fetched_at : ℕ
  pub backlog_complete : Bool
  pub backlog_cursor : Option Bytes
  pub catalog_kind : Option CatalogKind
  pub is_umbrella : Bool
  pub metadata_refreshed_at : Option ℕ

-- A row of `failed_episodes`
pub record FailedRow : Type 0 where
  pub attempts : ℕ
  pub next_retry_at : ℕ

-- Rows of `feed_activity` and `feed_clients`
pub record ActivityRow : Type 0 where
  pub first_requested_at : ℕ
  pub last_requested_at : ℕ

pub record ClientRow : Type 0 where
  pub last_seen_at : ℕ
  pub subscribers : Option ℕ

-- `progress` of internal/feed/refresh.go, the value of a "refresh-progress:" key
pub record Progress : Type 0 where
  pub cursor : Bytes
  pub stop_episode_ids : List Bytes

pub record Db : Type 0 where
  pub series_table : Map SeriesRow
  pub episode_table : Map (Map EpisodeRow)
  pub failed_table : Map (Map FailedRow)
  pub activity_table : Map ActivityRow
  pub client_table : Map (Map ClientRow)
  pub daily_table : Map (Map ℕ)
  -- app_state, by prefix: "retry:", "refresh-progress:", and "chapters:" with its expiry
  pub retry : RetryTable
  pub progress : Map Progress
  pub chapters : Map ℕ
  -- app_state, the key "activity-since"
  pub activity_since : Option ℕ
  -- `versions`, in memory
  pub versions : Map ℕ

-- The rows under the first part of a two-part key.
abbrev pub rows_or_empty {ℓ} : {V : Type ℓ} → Option (Map V) → Map V
rows_or_empty none = []
rows_or_empty (some rows) = rows

abbrev pub rows_of {ℓ} : {V : Type ℓ} → Bytes → Map (Map V) → Map V
rows_of id table = rows_or_empty (lookup id table)

-- SQL's COALESCE of two
abbrev pub coalesce {ℓ} : {A : Type ℓ} → Option A → Option A → Option A
coalesce none b = b
coalesce (some a) b = some a

abbrev pub or_zero : Option ℕ → ℕ
or_zero none = 0
or_zero (some n) = n

-- `versions.get`: versions start at 1
unfoldable pub data_version : Bytes → Db → ℕ
data_version id db = or_zero (lookup id db.versions) + 1

-- `versions.bump`
unfoldable pub bump : Bytes → Db → Db
bump id db = record db { versions = insert id (or_zero (lookup id db.versions) + 1) db.versions }
