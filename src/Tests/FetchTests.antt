-- ===== src/Tests/FetchTests.antt =====
-- internal/feed/refresh.go: a refresh whose second page does not answer, and a show that became an
-- umbrella while its refresh was paused.
use kringkasting.Base.{take, ℕ, zero, suc, ◌≡◌, refl, true, false, none, some, [], ◌∷◌, codes, same}
use kringkasting.Base.Map.{lookup, insert, delete, keys_where, is_some}
use kringkasting.Base.Ascii.{index, has_prefix}
use kringkasting.FeedId
use kringkasting.Retry
use kringkasting.Store.{Db, Series, Progress, podcast}
use kringkasting.Store.Upsert.{ids}
use kringkasting.Store.Write.{add_episodes, write_series}
use kringkasting.Store.Failures.{read_blocked_episode_ids}
use kringkasting.Store.Videos.{set_clip_ids}
use kringkasting.Crawl.Run.{record_failures}
use kringkasting.Crawl.Run.Page.{Grows}
use kringkasting.Nrk.{Listed, Answer, playable, parse_episodes}
use kringkasting.Feed.Refresh.{Jitter, refresh_key, progress_key}
use kringkasting.Feed.Fetch.{found, unavailable, Surroundings, initial_fetch, update_fetch}
use kringkasting.Feed.Series.{Feeds, answer, fetch_series}
use kringkasting.Store.Read.{read_series, newest_first}
use kringkasting.Feed.Fetch.Keeps.{fetches-Grow}
use kringkasting.Feed.Fetch.Boundary.{update_fetch-IsResumable}
use kringkasting.Tests.StoreTests.{feed, small, episode_a, episode_b}

abbrev fresh_episode : Listed
fresh_episode = record {
  id = codes "c";
  episode_id = codes "c";
  clip_id = [];
  title = codes "C";
  subtitle = none;
  date = codes "2024-01-01";
  duration_in_seconds = 60;
  share = none;
}

abbrev answers : ℕ → Answer
answers zero = record {
  status = 200;
  body = some (record { episodes = fresh_episode ∷ []; next = some (codes "/2") });
}
answers (suc p) = record { status = 503; body = none }

abbrev outage : Surroundings
outage = record {
  full =
      λ id skip kind. record { outcome = unavailable; failed = []; clips = []; incomplete = false };
  metadata = λ id kind. unavailable;
  listing = record { answer = λ p href. answers p; resolve = λ p e. playable (codes "u") none };
  parse_date = λ date. 300;
  metadata_written = true;
  added = true;
  written = true;
  now = 1000;
}

abbrev stored : Series
stored = record {
  id = feed;
  title = codes "T";
  subtitle = none;
  link = codes "l";
  image_url = [];
  last_fetched_at = 7;
  backlog_complete = false;
  backlog_cursor = none;
  catalog_kind = some podcast;
  is_umbrella = false;
  metadata_refreshed_at = some 7;
  episodes = episode_b ∷ (episode_a ∷ []);
  version = 1;
}

abbrev saved : Progress
saved = record {
  cursor = codes "/radio/catalog/podcast/feed/episodes?page=1&pageSize=50";
  stop_episode_ids = codes "b" ∷ (codes "a" ∷ []);
}

-- The walk goes on at the page before the one that did not answer.
resumes_later :
    lookup (progress_key feed) (update_fetch outage stored small).0.progress ≡ some saved
unfolding update_fetch FeedId.parse lookup insert same index has_prefix ids read_blocked_episode_ids
    keys_where parse_episodes add_episodes set_clip_ids record_failures
resumes_later = refl

no_season : (FeedId.parse feed).season_id ≡ []
unfolding FeedId.parse index has_prefix
no_season = refl

update_fetch-IsResumable_example :
    (Retry.can (update_fetch outage stored small).0.retry (refresh_key feed) 1000 ≡ false)
    × ((before : Progress)
        → lookup (progress_key feed) small.progress ≡ some before
        → saved.stop_episode_ids ≡ before.stop_episode_ids)
    × (lookup (progress_key feed) small.progress ≡ none
        → saved.stop_episode_ids ≡ take 50 (ids stored.episodes))
update_fetch-IsResumable_example =
    update_fetch-IsResumable outage stored podcast small refl no_season refl saved resumes_later

fetches-Grow_example :
    Grows feed small (initial_fetch outage feed small).0
    × Grows feed small (update_fetch outage stored small).0
fetches-Grow_example = fetches-Grow outage stored small

-- A refresh was paused in the very call that learnt that the show is an umbrella.
abbrev umbrella : Series
umbrella = record stored { is_umbrella = true }

abbrev paused_db : Db
paused_db = record small { progress = (progress_key feed, saved) ∷ [] }

abbrev works : Surroundings
works = record outage {
  full = λ id skip kind. record {
    outcome = found umbrella;
    failed = [];
    clips = [];
    incomplete = false;
  };
}

-- Its full refreshes come through, and neither removes the progress nor puts the next one off.
umbrella_kept :
    (lookup (progress_key feed) (update_fetch works umbrella paused_db).0.progress ≡ some saved)
    × (Retry.can (update_fetch works umbrella paused_db).0.retry (refresh_key feed) 1000 ≡ true)
unfolding update_fetch FeedId.parse lookup insert same index has_prefix write_series set_clip_ids
    record_failures Retry.can Retry.clear delete
umbrella_kept = (refl, refl)

-- Two feeds of which one is being fetched.
abbrev busy : Feeds
busy = record { not_found_until = (codes "gone", 5) ∷ []; in_flight = codes "other" ∷ [] }

-- A feed that is stored and due is refreshed, and its archive goes on being crawled.
abbrev no_jitter : Jitter
no_jitter = record { part = 0; whole = 1 }

fetched_again : (fetch_series works true feed no_jitter paused_db).crawls ≡ feed ∷ []
unfolding fetch_series FeedId.parse lookup insert same index has_prefix read_series write_series
    set_clip_ids record_failures newest_first Retry.can Retry.clear delete add_episodes
    parse_episodes ids read_blocked_episode_ids keys_where is_some
fetched_again = refl
