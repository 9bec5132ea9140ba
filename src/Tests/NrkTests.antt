-- ===== src/Tests/NrkTests.antt =====
-- internal/nrk: a short listing, and the lookups of an episode.
use kringkasting.Base.{
  ℕ, zero, suc, ◌≡◌, refl, true, false, Option, none, some, List, [], ◌∷◌, arith, if◌then◌else◌,
  All, Bytes, codes, same,
}
use kringkasting.Base.Map.{lookup}
use kringkasting.Base.Ascii.{contains, index, has_prefix}
use kringkasting.Nrk.{Listed, EpisodesPage, playable, gone, is_hls}
use kringkasting.Nrk.Media.{episode_with_download_link}
use kringkasting.Nrk.Media.Links.{has_file, has_asset, media-playable}
use kringkasting.Nrk.Media.Failures.{fail_times, manifest_failed-fifth}
use kringkasting.Nrk.NewEpisodes.{NewEpisodes, Nrk, max_pages, get_new_episodes}
use kringkasting.Nrk.NewEpisodes.Cover.{Covered, found_ids}
use kringkasting.Nrk.NewEpisodes.Ends.{passed, last_href}
use kringkasting.Nrk.NewEpisodes.Chain.{IsChain}
use kringkasting.Nrk.NewEpisodes.Progress.{get_new_episodes-cover}

abbrev listed : Bytes → Listed
listed id = record {
  id = id;
  episode_id = id;
  clip_id = [];
  title = codes "T";
  subtitle = none;
  date = codes "2024-01-01";
  duration_in_seconds = 60;
  share = none;
}

abbrev first_page : EpisodesPage
first_page = record {
  episodes = listed (codes "new") ∷ (listed (codes "lost") ∷ []);
  next = some (codes "/2");
}

abbrev second_page : EpisodesPage
second_page = record { episodes = listed (codes "old") ∷ []; next = some (codes "/3") }

abbrev page_at : ℕ → EpisodesPage
page_at zero = first_page
page_at (suc n) = second_page

-- Two pages; the second episode has no manifest.
abbrev short : Nrk
short = record {
  answer = λ p href. record { status = 200; body = some (page_at p) };
  resolve = λ p e. if same e.id (codes "lost") then gone else playable (codes "u.mp3") (some 9);
}

abbrev known : List Bytes
known = codes "old" ∷ []

abbrev refreshed : NewEpisodes
refreshed = record {
  episodes = record { listed = listed (codes "new"); url = codes "u.mp3"; bytes = some 9 } ∷ [];
  saw_all_pages = true;
  resume_href = none;
  is_gone = false;
}

first_refresh : (get_new_episodes short known known (codes "/1")).result ≡ some refreshed
unfolding get_new_episodes same
first_refresh = refl

get_new_episodes-cover_example :
    All
      (λ (p : Bytes × EpisodesPage).
        All
          (Covered known
            (found_ids refreshed.episodes)
            (get_new_episodes short known known (codes "/1")).failed)
          p.1.episodes)
      (passed short known known max_pages 0 (codes "/1"))
    × ((end : Bytes) × IsChain short known 0
          (codes "/1")
          (passed short known known max_pages 0 (codes "/1"))
          end
        × (refreshed.saw_all_pages ≡ true → end ≡ []))
    × (refreshed.saw_all_pages ≡ false
        → refreshed.is_gone ≡ false
        → refreshed.resume_href
          ≡ some (last_href (codes "/1") (passed short known known max_pages 0 (codes "/1"))))
get_new_episodes-cover_example =
    get_new_episodes-cover short known known (codes "/1") refreshed first_refresh

abbrev ok_status : ℕ
ok_status = 200

abbrev ok_size : ℕ
ok_size = 7

abbrev two_assets : List (Option Bytes)
two_assets = some (codes "x.m3u8") ∷ (none ∷ (some (codes "x.mp3") ∷ []))

found_file :
    (episode_with_download_link true
      (codes "e")
      200
      (record { assets = some two_assets })
      (some 7)
      []).0
    ≡ playable (codes "x.mp3") (some 7)
unfolding episode_with_download_link is_hls contains index has_prefix
found_file = refl

media-playable_example :
    (true ≡ true)
    × (ok_status ≡ 200)
    × (has_file two_assets ≡ true
        → (is_hls (codes "x.mp3") ≡ false) × (has_asset (codes "x.mp3") two_assets ≡ true))
    × (is_hls (codes "x.mp3") ≡ true → some ok_size ≡ none)
media-playable_example =
    media-playable true (codes "e") 200 two_assets (some 7) [] (codes "x.mp3") (some 7) found_file

manifest_failed-fifth_example :
    ((fail_times 5 (codes "e") []).0 ≡ false ∷ (false ∷ (false ∷ (false ∷ (true ∷ [])))))
    × (lookup (codes "e") (fail_times 5 (codes "e") []).1 ≡ none)
unfolding lookup
manifest_failed-fifth_example = manifest_failed-fifth (codes "e") [] (omega arith) refl
