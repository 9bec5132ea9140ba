-- ===== src/Nrk/Archive.antt =====
-- The archive pages of internal/nrk/nrk.go: `listPage`, `GetEpisodePage`, `ListClipIDs`, and
-- `GetEpisodeResult`. `get` stands for NRK's answers by the path of a request, and `resolve` for what
-- the lookups of episodes result in, by the playback endpoint. The failed ids, which the callback is
-- told, come with the page.
pub mod Covers
use kringkasting.Base.{
  ℕ, zero, suc, ◌+◌, ◌-◌, ◌*◌, ◌/◌, ◌%◌, ◌^◌, ◌≤◌, ◌<◌, min, max, String, ◌≡◌, refl, sym, ap, ◌∙◌,
  ◌≢◌, ◌↔◌, ◌⊎◌, inl, inr, Bool, true, false, not, ◌&&◌, ◌||◌, Option, none, some, List, [], ◌∷◌,
  ◌++◌, map, append_assoc, append-nil, arith, ltb, leb, ◌==◌, if◌then◌else◌, ltb→lt, lt→ltb, leb→le,
  le→leb, ==_iff, Bool-cases, Option-cases, length, get_elem?, set, take, drop, length-append,
  length-take-le, length-drop, All, All-append, All-left, All-right, Bytes, codes, same, same_iff,
  same_refl, append_cancel_left, differ, All-middle, All-map,
}
use kringkasting.Base.Ascii.{has_prefix, contains}
use kringkasting.Store.{Episode, CatalogKind, podcast, series}
use kringkasting.FeedId
use kringkasting.FeedId.{Ref}
use kringkasting.Nrk.{
  Listed, EpisodesPage, Resolved, Answer, catalog_order, clip_ids, filter_skipped, Collected,
  collect, parse_episodes,
}
use kringkasting.Nrk.NewEpisodes.{or_empty}
use kringkasting.Crawl.Run.{EpisodePage}

abbrev pub kind_path : CatalogKind → Bytes
kind_path podcast = codes "podcast"
kind_path series = codes "series"

abbrev pub season_path : Bytes → Bytes
season_path [] = []
season_path (c ∷ season) = codes "/seasons/" ++ (c ∷ season)

-- The first page of a feed in one catalog; a season feed has its own listing.
abbrev pub first_href : CatalogKind → Ref → Bytes
first_href kind ref =
    codes "/radio/catalog/"
    ++ (kind_path kind
        ++ (codes "/"
            ++ (ref.series_id
                ++ (season_path ref.season_id ++ codes "/episodes?page=1&pageSize=50"))))

abbrev pub with_slash : Bytes → Bytes
with_slash href = if has_prefix href (codes "/") then href else codes "/" ++ href

abbrev pub with_href : Bytes → Option EpisodesPage → Option (EpisodesPage × Bytes)
with_href href none = none
with_href href (some page) = some (page, href)

abbrev pub or_else {ℓ} : {A : Type ℓ} → Option A → Option A → Option A
or_else none b = b
or_else (some a) b = some a

module _ (get : Bytes → Answer) where
  -- The catalogs in turn, until one has the page.
  unfoldable pub first_page : List CatalogKind → Ref → Option (EpisodesPage × Bytes)
  first_page [] ref = none
  first_page (k ∷ ks) ref =
      or_else (with_href (first_href k ref) (get (first_href k ref)).body) (first_page ks ref)

  -- `listPage`, with the page that it found and its href
  unfoldable pub list_page : Bytes → Bytes → Option CatalogKind → Option (EpisodesPage × Bytes)
  unfolding first_page FeedId.parse has_prefix
  list_page feed_id [] kind = first_page (catalog_order kind) (FeedId.parse feed_id)
  list_page feed_id (c ∷ cursor) kind = with_href (c ∷ cursor) (get (with_slash (c ∷ cursor))).body

  -- `ListClipIDs`
  abbrev clips_of : Option (EpisodesPage × Bytes) → Option (List (Bytes × Bytes) × Bytes)
  clips_of none = none
  clips_of (some (page, href)) = some (clip_ids page.episodes, or_empty page.next)

  unfoldable pub list_clip_ids :
      Bytes → Bytes → Option CatalogKind → Option (List (Bytes × Bytes) × Bytes)
  unfolding list_page clip_ids
  list_clip_ids feed_id cursor kind = clips_of (list_page feed_id cursor kind)

abbrev no_next : Option Bytes → Bool
no_next none = true
no_next (some href) = false

abbrev no_bytes : Bytes → Bool
no_bytes [] = true
no_bytes (c ∷ s) = false

abbrev pub no_episodes : List Listed → Bool
no_episodes [] = true
no_episodes (e ∷ es) = false

abbrev pub playback_kind : Bytes → Bytes
playback_kind href =
    if contains href (codes "/catalog/series/") then codes "series" else codes "podcast"

module _ (parse_date : Bytes → ℕ) (resolve : Bytes → Listed → Resolved) where
  -- A later page that is empty and ends the listing.
  abbrev pub is_hiccup : Bytes → EpisodesPage → Bool
  is_hiccup cursor page = not (no_bytes cursor) && no_episodes page.episodes && no_next page.next

  abbrev pub resolved_page :
      Bytes → List Bytes → EpisodesPage → Bytes → Option EpisodePage × List Bytes
  resolved_page cursor skip page href =
      let got = collect (resolve (playback_kind href)) (filter_skipped skip page.episodes) in
      if is_hiccup cursor page then (none, []) else (
        some (record {
          episodes = parse_episodes parse_date got.found;
          next_href = or_empty page.next;
          transient_failures = got.transient_count;
          clip_ids = clip_ids page.episodes;
        }),
        got.failed,
      )

  abbrev pub of_listing :
      Bytes → List Bytes → Option (EpisodesPage × Bytes) → Option EpisodePage × List Bytes
  of_listing cursor skip none = (none, [])
  of_listing cursor skip (some (page, href)) = resolved_page cursor skip page href

  -- `GetEpisodePage`
  unfoldable pub get_episode_page :
      (Bytes → Answer)
      → Bytes
      → Bytes
      → List Bytes
      → Option CatalogKind
      → Option EpisodePage × List Bytes
  unfolding list_page collect filter_skipped clip_ids parse_episodes contains
  get_episode_page get feed_id cursor skip kind =
      of_listing cursor skip (list_page get feed_id cursor kind)

-- `GetEpisodeResult`: the status that each catalog answers, in turn, and whether the body decodes
abbrev pub episode_href : CatalogKind → Bytes → Bytes → Bytes
episode_href kind series_id episode_id =
    codes "/radio/catalog/"
    ++ (kind_path kind ++ (codes "/" ++ (series_id ++ (codes "/episodes/" ++ episode_id))))

unfoldable pub episode_result {ℓ} :
    {A : Type ℓ} → (Bytes → ℕ × Option A) → List CatalogKind → Bytes → Bytes → Bool → Option A × ℕ
episode_result ask [] series_id episode_id failed = (none, if failed then 503 else 404)
episode_result ask (k ∷ ks) series_id episode_id failed =
    let (status, detail) = ask (episode_href k series_id episode_id) in
    let rest = episode_result ask ks series_id episode_id (failed || not (status == 404)) in
    elim (if status == 200 then detail else none) [ none ↦ rest | some d ↦ (some d, 200) ]

abbrev pub get_episode_result {ℓ} :
    {A : Type ℓ} → (Bytes → ℕ × Option A) → Bytes → Bytes → Option CatalogKind → Option A × ℕ
get_episode_result ask series_id episode_id kind =
    episode_result ask (catalog_order kind) series_id episode_id false
