-- ===== src/Tests/VideoTests.antt =====
-- internal/video: an episode whose clip has a video of its length.
use kringkasting.Base.{◌+◌, ◌≡◌, refl, false, none, some, [], ◌∷◌, codes, same}
use kringkasting.Base.Map.{lookup, insert}
use kringkasting.Retry
use kringkasting.Store.{Db, EpisodeRow, bump}
use kringkasting.Store.Videos.{VideoCandidate, is_due, set_video, same_text}
use kringkasting.Video.{found, is_match, check, with_lookup, known_feeds, known_rows}
use kringkasting.Video.Settles.{check-is_due}
use kringkasting.Tests.StoreTests.{feed, episode_a, small}

abbrev clip_row : EpisodeRow
clip_row = record {
  episode = record episode_a { clip_id = some (codes "C") };
  video_next_check_at = none;
}

abbrev one_clip : Db
one_clip = record small { episode_table = (feed, (codes "a", clip_row) ∷ []) ∷ [] }

abbrev candidate : VideoCandidate
candidate = record {
  series_id = feed;
  episode_id = codes "a";
  clip_id = codes "C";
  date = 100;
  duration_in_seconds = 60;
  video_url = none;
}

abbrev checked_row : EpisodeRow
checked_row = record {
  episode = record clip_row.episode { video_url = some (codes "v.m3u8") };
  video_next_check_at = some (5000 + 2592000000);
}

check-is_due_example :
    is_due
      (check candidate (found (codes "v.m3u8") 61000) 5000 one_clip)
      5000
      (some (codes "C"))
      (some (5000 + 2592000000))
    ≡ false
unfolding check with_lookup known_feeds known_rows set_video same_text bump lookup insert same
    is_match Retry.can Retry.clear
check-is_due_example =
    check-is_due candidate (found (codes "v.m3u8") 61000) 5000 one_clip checked_row refl refl
