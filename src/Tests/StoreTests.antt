-- ===== src/Tests/StoreTests.antt =====
-- internal/store on a small database.
use kringkasting.Base.{
  ◌+◌, ◌*◌, ◌≤◌, ◌≡◌, refl, sym, ◌≢◌, true, false, none, some, List, [], ◌∷◌, ◌++◌, ltb,
  if◌then◌else◌, Bytes, codes, same, differ,
}
use kringkasting.Base.Map.{lookup, is_some, mem}
use kringkasting.Base.Ascii.{has_prefix}
use kringkasting.Store.{
  Episode, EpisodeRow, Series, SeriesRow, Db, rows_of, data_version, CatalogKind,
}
use kringkasting.Store.Upsert.{ids}
use kringkasting.Store.Archive.{Stored, archive_accumulates}
use kringkasting.Store.History.{Write, replay, touch_write, episodes_write, delete_write}
use kringkasting.Store.Versions.{data_version_sound}
use kringkasting.Store.Shown.{SameShown}
use kringkasting.Store.Failures.{read_blocked_episode_ids, fail_all, day_ms}
use kringkasting.Store.Failures.Backoff.{doubled_days, fail_all-blocked}
use kringkasting.Store.Delete.{delete_series_by_id}
use kringkasting.Store.Delete.Scope.{delete_series_scope, is_retry_key}
use kringkasting.Store.Read.{read_series, read_series_meta, newest_first}
use kringkasting.Store.Read.Order.{
  IsNewestFirst, first_date, read_series-episodes, read_series_meta-read_series,
}

abbrev pub episode_a : Episode
episode_a = record {
  id = codes "a";
  title = codes "A";
  subtitle = none;
  url = codes "https://x/a.mp3";
  share_link = codes "https://x/l_a";
  date = 100;
  duration_in_seconds = 60;
  bytes = some 5;
  clip_id = none;
  video_url = none;
}

abbrev pub episode_b : Episode
episode_b = record episode_a { id = codes "b"; date = 200 }

abbrev row_a : EpisodeRow
row_a = record { episode = episode_a; video_next_check_at = none }

abbrev row_b : EpisodeRow
row_b = record { episode = episode_b; video_next_check_at = none }

abbrev pub feed : Bytes
feed = codes "feed"

abbrev other_feed : Bytes
other_feed = codes "feed2"

abbrev pub series_row : SeriesRow
series_row = record {
  title = codes "T";
  subtitle = none;
  link = codes "l";
  image_url = [];
  last_fetched_at = 7;
  backlog_complete = false;
  backlog_cursor = none;
  catalog_kind = some CatalogKind.podcast;
  is_umbrella = false;
  metadata_refreshed_at = some 7;
}

abbrev pub small : Db
small = record {
  series_table = (feed, series_row) ∷ [];
  episode_table = (feed, (codes "a", row_a) ∷ (codes "b", row_b) ∷ []) ∷ [];
  failed_table = [];
  activity_table = [];
  client_table = [];
  retry = [];
  progress = [];
  chapters = [];
  daily_table = [];
  activity_since = none;
  versions = [];
}

abbrev writes : List Write
writes =
    touch_write feed 9
    ∷ episodes_write true feed (episode_b ∷ [])
    ∷ delete_write true other_feed
    ∷ []

feeds_differ : feed ≢ other_feed
unfolding same
feeds_differ = differ feed other_feed refl

row_a_stored : lookup (codes "a") (rows_of feed small.episode_table) ≡ some row_a
unfolding lookup same
row_a_stored = refl

data_version_sound_example :
    (data_version feed small ≤ data_version feed (replay small writes))
    × (data_version feed (replay small writes) ≡ data_version feed small
        → SameShown feed small (replay small writes))
data_version_sound_example = data_version_sound feed writes small

archive_accumulates_example :
    Stored row_a (codes "a") (rows_of feed (replay small writes).episode_table)
archive_accumulates_example =
    archive_accumulates feed (codes "a") row_a writes small row_a_stored
      (tt, (tt, (feeds_differ, tt)))

fail_all-blocked_example :
    mem
      (codes "a")
      (read_blocked_episode_ids feed 50 (fail_all feed (codes "a") ((1 ∷ []) ++ 2 ∷ []) small))
    ≡ ltb 50 (2 + doubled_days 1 * day_ms)
unfolding lookup same
fail_all-blocked_example = fail_all-blocked feed (codes "a") (1 ∷ []) 2 50 small tt refl

abbrev deleted : Db
deleted = delete_series_by_id true feed small

abbrev kept_key : Bytes
kept_key = codes "retry:origin:https://psapi.nrk.no"

delete_series_scope_example :
    (lookup feed deleted.series_table ≡ none)
    × (lookup feed deleted.episode_table ≡ none)
    × (lookup feed deleted.failed_table ≡ none)
    × (lookup feed deleted.activity_table ≡ none)
    × (lookup feed deleted.client_table ≡ none)
    × (lookup other_feed deleted.series_table ≡ lookup other_feed small.series_table)
    × (lookup other_feed deleted.episode_table ≡ lookup other_feed small.episode_table)
    × (lookup other_feed deleted.failed_table ≡ lookup other_feed small.failed_table)
    × (lookup other_feed deleted.activity_table ≡ lookup other_feed small.activity_table)
    × (lookup other_feed deleted.client_table ≡ lookup other_feed small.client_table)
    × (lookup kept_key deleted.retry
        ≡ (if is_retry_key feed kept_key then none else lookup kept_key small.retry))
    × (lookup kept_key deleted.progress ≡ (
        if same (codes "refresh-progress:" ++ feed) kept_key
        then none
        else lookup kept_key small.progress))
    × (lookup kept_key deleted.chapters ≡ (
        if has_prefix kept_key (codes "chapters:" ++ (feed ++ codes ":"))
        then none
        else lookup kept_key small.chapters))
    × (data_version feed deleted ≡ data_version feed small + 1)
delete_series_scope_example =
    delete_series_scope feed other_feed kept_key small (λ e. feeds_differ (sym e))

abbrev whole : Series
whole = record {
  id = feed;
  title = codes "T";
  subtitle = none;
  link = codes "l";
  image_url = [];
  last_fetched_at = 7;
  backlog_complete = false;
  backlog_cursor = none;
  catalog_kind = some CatalogKind.podcast;
  is_umbrella = false;
  metadata_refreshed_at = some 7;
  episodes = episode_b ∷ episode_a ∷ [];
  version = 1;
}

small_reads : read_series feed small ≡ some whole
unfolding read_series lookup same newest_first data_version
small_reads = refl

read_series-episodes_example :
    IsNewestFirst whole.episodes
    × ((e : Bytes)
        → mem e (ids whole.episodes) ≡ is_some (lookup e (rows_of feed small.episode_table)))
read_series-episodes_example = read_series-episodes feed small whole small_reads

read_series_meta-read_series_example : read_series_meta feed small ≡ elim (read_series feed small) [
  | none ↦ none
  | some s ↦ some (record {
    id = s.id;
    last_fetched_at = s.last_fetched_at;
    backlog_complete = s.backlog_complete;
    newest_episode_at = first_date s.episodes;
  })
]
read_series_meta-read_series_example = read_series_meta-read_series feed small
