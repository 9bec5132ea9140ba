-- ===== src/Feed/Fetch.antt =====
-- internal/feed/refresh.go: the fetches of a feed, `initialFetch`, `updateFetch` and `fullRefresh`.
-- What `fetchFromNrk` and the metadata lookup come back with is an argument, as are the answers and
-- the lookups of a refresh; `GetNewEpisodes` itself is that of internal/nrk. What the callbacks are
-- told is recorded when the call is over, the failures first: the two are in different tables. The
-- clock stands still during a fetch.
pub mod Keeps
pub mod Boundary
use kringkasting.Base.{
  ℕ, ◌-◌, ◌*◌, Bool, true, false, not, ◌&&◌, Option, none, some, List, [], ◌∷◌, ◌++◌, leb, take,
  if◌then◌else◌, Bytes, codes,
}
use kringkasting.Base.Map.{lookup, insert, delete, is_some}
use kringkasting.FeedId
use kringkasting.Retry
use kringkasting.Store.{Series, Db, Progress, CatalogKind, or_zero}
use kringkasting.Store.Upsert.{ids}
use kringkasting.Store.Write.{write_series, touch_last_fetched}
use kringkasting.Store.Read.{read_series}
use kringkasting.Store.Failures.{read_blocked_episode_ids}
use kringkasting.Store.Videos.{set_clip_ids}
use kringkasting.Crawl.Run.{record_failures, store_page}
use kringkasting.Nrk.{parse_episodes}
use kringkasting.Nrk.Archive.{kind_path}
use kringkasting.Nrk.NewEpisodes.{NewEpisodes, Walk, Nrk, get_new_episodes}
use kringkasting.Feed.Refresh.{day, refresh_key, progress_key}

-- seven days
abbrev pub metadata_ttl : ℕ
metadata_ttl = 7 * day

abbrev pub stop_boundary : ℕ
stop_boundary = 50

abbrev pub stale_age : ℕ
stale_age = 9 * day

-- `Outcome`, with the series that was found
pub data Fetched : Type 0 where
  found : Series → Fetched
  not_found unavailable : Fetched

-- What a fetch of everything comes back with, and what its callbacks were told.
pub record FullFetch : Type 0 where
  pub outcome : Fetched
  pub failed : List Bytes
  pub clips : List (Bytes × Bytes)
  pub incomplete : Bool

-- What a fetch meets: NRK, the outcomes of its transactions, and the clock.
pub record Surroundings : Type 0 where
  -- `fetchFromNrk`, of a feed, the ids to skip and the catalog
  pub full : Bytes → List Bytes → Option CatalogKind → FullFetch
  pub metadata : Bytes → CatalogKind → Fetched
  pub listing : Nrk
  pub parse_date : Bytes → ℕ
  pub metadata_written : Bool
  pub added : Bool
  pub written : Bool
  pub now : ℕ

-- `initialFetch` gives a series, none, or `ErrUpstream`.
pub data Initial : Type 0 where
  fetched : Series → Initial
  missing err_upstream : Initial

abbrev pub defer_refresh : Bytes → ℕ → Db → Db
defer_refresh id now db = record db { retry = Retry.defer db.retry (refresh_key id) 0 now }

abbrev pub clear_refresh : Bytes → Db → Db
clear_refresh id db = record db { retry = Retry.clear db.retry (refresh_key id) }

abbrev pub or_fallback : Option Series → Series → Series
or_fallback none fallback = fallback
or_fallback (some stored) fallback = stored

abbrev pub read_or : Bytes → Series → Db → Series
read_or id fallback db = or_fallback (read_series id db) fallback

-- The callbacks, `onFailure` and `onClipIDs`.
unfoldable pub told : Bytes → List Bytes → List (Bytes × Bytes) → ℕ → Db → Db
told id failed clips now db = set_clip_ids id clips (record_failures id failed now db)

-- The deadline after a fetch that came through, with or without all its seasons.
abbrev pub settle_retry : Bytes → Bool → ℕ → Db → Db
settle_retry id incomplete now db =
    if incomplete then defer_refresh id now db else clear_refresh id db

module _ (w : Surroundings) (id : Bytes) where
  abbrev initial_stored : Series → Bool → Db × Bool → Db × Initial
  initial_stored s incomplete (db, stored) =
      if stored
      then (let settled = settle_retry id incomplete w.now db in
          (settled, fetched (read_or id s settled)))
      else (db, fetched s)

  abbrev initial_of : Fetched → Bool → Db → Db × Initial
  initial_of unavailable incomplete db = (defer_refresh id w.now db, err_upstream)
  initial_of not_found incomplete db = (clear_refresh id db, missing)
  initial_of (found s) incomplete db =
      let dated = if incomplete then record s { last_fetched_at = w.now - stale_age } else s in
      initial_stored dated incomplete (write_series w.written dated w.now db)

  unfoldable pub initial_fetch : Db → Db × Initial
  unfolding told
  initial_fetch db =
      let got = w.full id [] none in
      initial_of got.outcome got.incomplete (told id got.failed got.clips w.now db)

module _ (w : Surroundings) (existing : Series) where
  abbrev pub gives_up : Db → Db × Series
  gives_up db = (defer_refresh existing.id w.now db, existing)

  abbrev pub full_stored : Bool → Db × Bool → Db × Series
  full_stored incomplete (db, stored) =
      if stored
      then (let settled = settle_retry existing.id incomplete w.now db in
          (settled, read_or existing.id existing settled))
      else gives_up db

  abbrev pub full_of : Fetched → Bool → Db → Db × Series
  full_of unavailable incomplete db = gives_up db
  full_of not_found incomplete db = gives_up db
  full_of (found s) incomplete db =
      let dated =
        if incomplete then record s { last_fetched_at = existing.last_fetched_at } else s in
      full_stored incomplete (write_series w.written dated w.now db)

  -- `fullRefresh`, with the ids to skip
  unfoldable pub full_refresh : List Bytes → Db → Db × Series
  unfolding told
  full_refresh skip db =
      let got = w.full existing.id skip existing.catalog_kind in
      full_of got.outcome got.incomplete (told existing.id got.failed got.clips w.now db)

  -- `skip`, as it stands when the refresh begins
  abbrev pub skip_of : Db → List Bytes
  skip_of db = ids existing.episodes ++ read_blocked_episode_ids existing.id w.now db

  -- The boundary from before the batch.
  abbrev pub stop_ids : Option Progress → List Bytes
  stop_ids none = take stop_boundary (ids existing.episodes)
  stop_ids (some saved) = saved.stop_episode_ids

  abbrev pub cursor_of : CatalogKind → Option Progress → Bytes
  cursor_of kind none =
      codes "/radio/catalog/"
      ++ (kind_path kind ++ (codes "/" ++ (existing.id ++ codes "/episodes?page=1&pageSize=50")))
  cursor_of kind (some saved) = saved.cursor

  abbrev pub save_progress : Bytes → List Bytes → Db → Db
  save_progress cursor stop db = record db {
    progress =
        insert (progress_key existing.id) (record { cursor = cursor; stop_episode_ids = stop })
          db.progress;
  }

  abbrev pub delete_progress : Db → Db
  delete_progress db = record db { progress = delete (progress_key existing.id) db.progress }

  abbrev pub over : Db → Db × Series
  over db =
      let touched =
        touch_last_fetched existing.id w.now (clear_refresh existing.id (delete_progress db)) in
      (touched, read_or existing.id existing touched)

  abbrev pub paused : Bytes → List Bytes → Db → Db × Series
  paused href stop db =
      let saved = defer_refresh existing.id w.now (save_progress href stop db) in
      (saved, read_or existing.id existing saved)

  -- Where the listing goes on, once its episodes are stored.
  abbrev pub settled : Bool → Option Bytes → List Bytes → Db → Db × Series
  settled saw_all none stop db = over db
  settled saw_all (some href) stop db = if not saw_all then paused href stop db else over db

  abbrev pub episodes_added : NewEpisodes → List Bytes → Db × Bool → Db × Series
  episodes_added r stop (db, stored) =
      if stored then settled r.saw_all_pages r.resume_href stop db else gives_up db

  abbrev pub after_walk : Option NewEpisodes → List Bytes → List Bytes → Db → Db × Series
  after_walk none skip stop db = gives_up db
  after_walk (some r) skip stop db =
      if r.is_gone
      then full_refresh skip (delete_progress db)
      else episodes_added r stop
          (store_page w.added existing.id (parse_episodes w.parse_date r.episodes) db)

  abbrev pub walk_of : List Bytes → CatalogKind → Option Progress → Walk
  walk_of skip kind saved = get_new_episodes w.listing skip (stop_ids saved) (cursor_of kind saved)

  -- The listing only.
  unfoldable pub refresh_listing : List Bytes → CatalogKind → Option Progress → Db → Db × Series
  unfolding full_refresh store_page get_new_episodes told
  refresh_listing skip kind saved db =
      let walk = walk_of skip kind saved in
      after_walk walk.result skip (stop_ids saved) (
        told existing.id walk.failed walk.clips w.now
          (save_progress (cursor_of kind saved) (stop_ids saved) db))

  abbrev pub metadata_of : Fetched → Db → Db × Bool
  metadata_of (found s) db =
      write_series w.metadata_written (record s { last_fetched_at = existing.last_fetched_at })
        w.now db
  metadata_of not_found db = (db, false)
  metadata_of unavailable db = (db, false)

  -- The metadata, when it is due, and whether the refresh goes on.
  unfoldable pub refresh_metadata : CatalogKind → Option Progress → Db → Db × Bool
  unfolding is_some
  refresh_metadata kind saved db =
      if not (is_some saved) && leb metadata_ttl (w.now - or_zero existing.metadata_refreshed_at)
      then metadata_of (w.metadata existing.id kind) db
      else (db, true)

  -- `cheap`, with the catalog that it needs
  abbrev pub cheap_in : Bool → Bytes → Option CatalogKind → Option CatalogKind
  cheap_in umbrella [] kind = if umbrella then none else kind
  cheap_in umbrella (c ∷ season) kind = none

  abbrev pub cheap_kind : Option CatalogKind
  cheap_kind =
      cheap_in existing.is_umbrella (FeedId.parse existing.id).season_id existing.catalog_kind

  abbrev pub with_metadata : List Bytes → CatalogKind → Option Progress → Db × Bool → Db × Series
  with_metadata skip kind saved (db, go_on) =
      if go_on then refresh_listing skip kind saved db else gives_up db

  abbrev pub update_in : Option CatalogKind → Db → Db × Series
  update_in none db = full_refresh (skip_of db) db
  update_in (some kind) db =
      let saved = lookup (progress_key existing.id) db.progress in
      with_metadata (skip_of db) kind saved (refresh_metadata kind saved db)

  -- `updateFetch`
  unfoldable pub update_fetch : Db → Db × Series
  unfolding full_refresh refresh_listing refresh_metadata
  update_fetch db = update_in cheap_kind db
