-- ===== src/Tests/ArchiveTests.antt =====
-- internal/nrk: a first archive page of two episodes, one of them without a manifest.
use kringkasting.Base.{ℕ, ◌≡◌, refl, none, some, [], ◌∷◌, if◌then◌else◌, Bytes, codes, same}
use kringkasting.Base.Ascii.{contains, index, has_prefix}
use kringkasting.Nrk.{
  Listed, EpisodesPage, Resolved, Answer, playable, gone, collect, filter_skipped, clip_ids,
  parse_episodes,
}
use kringkasting.Crawl.Run.{EpisodePage}
use kringkasting.Nrk.Archive.{
  list_page, first_page, get_episode_page, episode_result, get_episode_result,
}
use kringkasting.Nrk.Archive.Covers.{IsMadeOf, get_episode_page-covers}

abbrev listed : Bytes → Listed
listed id = record {
  id = id;
  episode_id = id;
  clip_id = codes "C";
  title = codes "T";
  subtitle = none;
  date = codes "2024-01-01";
  duration_in_seconds = 60;
  share = none;
}

abbrev listing : EpisodesPage
listing = record {
  episodes = listed (codes "new") ∷ (listed (codes "lost") ∷ []);
  next = some (codes "/2");
}

-- NRK has the feed in the catalog of series only.
abbrev only_series : Bytes → Answer
only_series href =
    if contains href (codes "/catalog/series/")
    then record { status = 200; body = some listing }
    else record { status = 404; body = none }

abbrev lookups : Bytes → Listed → Resolved
lookups kind e = if same e.id (codes "lost") then gone else playable (codes "u.mp3") (some 9)

abbrev any_date : Bytes → ℕ
any_date text = 5

abbrev page : EpisodePage
page = record {
  episodes =
      record {
        id = codes "new";
        title = codes "T";
        subtitle = none;
        url = codes "u.mp3";
        share_link = [];
        date = 5;
        duration_in_seconds = 60;
        bytes = some 9;
        clip_id = some (codes "C");
        video_url = none;
      }
      ∷ [];
  next_href = codes "/2";
  transient_failures = 0;
  clip_ids = (codes "new", codes "C") ∷ ((codes "lost", codes "C") ∷ []);
}

get_episode_page-covers_example : IsMadeOf [] listing (page, codes "lost" ∷ [])
unfolding get_episode_page list_page first_page contains index has_prefix same collect
    filter_skipped clip_ids parse_episodes
get_episode_page-covers_example =
    get_episode_page-covers any_date lookups only_series (codes "mat") [] [] none listing
      (codes "/radio/catalog/series/mat/episodes?page=1&pageSize=50") page refl refl

absent_everywhere :
    get_episode_result {A = ℕ} (λ href. (404, none)) (codes "mat") (codes "e") none ≡ (none, 404)
unfolding episode_result
absent_everywhere = refl
