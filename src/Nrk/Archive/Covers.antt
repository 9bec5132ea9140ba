-- ===== src/Nrk/Archive/Covers.antt =====
-- An archive page passes over no listed episode.
use mathlib.Core.Path.{subst}
use kringkasting.Base.{
  ℕ, ◌≡◌, refl, sym, ap, inl, inr, Option, none, some, List, [], ◌∷◌, Bool-cases, All, Bytes,
}
use kringkasting.Store.{CatalogKind}
use kringkasting.Store.Upsert.{ids}
use kringkasting.Nrk.{
  Listed, WithMedia, EpisodesPage, Resolved, Answer, Collected, collect, filter_skipped, clip_ids,
  parse_episodes,
}
use kringkasting.Nrk.NewEpisodes.{or_empty}
use kringkasting.Nrk.NewEpisodes.Cover.{Covered, found_ids, collect-Covers}
use kringkasting.Crawl.Run.{EpisodePage}
use kringkasting.Nrk.Archive.{
  list_page, is_hiccup, playback_kind, resolved_page, of_listing, get_episode_page,
}

-- What a page is to the listing that it was made of.
abbrev pub IsMadeOf : List Bytes → EpisodesPage → EpisodePage × List Bytes → Type 0
IsMadeOf skip listing (page, failed) =
    (page.transient_failures ≡ 0 → All (Covered skip (ids page.episodes) failed) listing.episodes)
    × (page.next_href ≡ or_empty listing.next)
    × (page.clip_ids ≡ clip_ids listing.episodes)

abbrev pub MadeIn : List Bytes → EpisodesPage → Option EpisodePage → List Bytes → Type 0
MadeIn skip listing none failed = Unit
MadeIn skip listing (some page) failed = IsMadeOf skip listing (page, failed)

module _ (parse_date : Bytes → ℕ) where
  ids-parse_episodes : (ms : List WithMedia) → ids (parse_episodes parse_date ms) ≡ found_ids ms
  unfolding ids parse_episodes found_ids
  ids-parse_episodes [] = refl
  ids-parse_episodes (m ∷ ms) = ap (λ t. m.id ∷ t) (ids-parse_episodes ms)

  module _ (resolve : Bytes → Listed → Resolved) where
    resolved_page-MadeIn :
        (cursor : Bytes) (skip : List Bytes) (listing : EpisodesPage) (href : Bytes)
        → let r = resolved_page parse_date resolve cursor skip listing href in
          MadeIn skip listing r.0 r.1
    resolved_page-MadeIn cursor skip listing href =
        let ask : Listed → Resolved = resolve (playback_kind href) in
        let got : Collected = collect ask (filter_skipped skip listing.episodes) in
        elim (Bool-cases (is_hiccup parse_date resolve cursor listing)) [
          | inl y ↦ rw y tt
          | inr n ↦ rw n (
            (λ t.
                subst (λ found. All (Covered skip found got.failed) listing.episodes)
                  (sym (ids-parse_episodes got.found))
                  (collect-Covers skip ask listing.episodes t)),
            refl,
            refl,
          )
        ]

    -- An archive page, when NRK's answer has one and no lookup failed transiently, covers every
    -- listed episode that is not to be skipped: it is on the page or reported as failed. The page
    -- links on to where the listing does, and has the clip references of every listed episode.
    pub get_episode_page-covers :
        (get : Bytes → Answer) (feed_id cursor : Bytes) (skip : List Bytes)
        (kind : Option CatalogKind) (listing : EpisodesPage) (href : Bytes) (page : EpisodePage)
        → list_page get feed_id cursor kind ≡ some (listing, href)
        → (get_episode_page parse_date resolve get feed_id cursor skip kind).0 ≡ some page
        → IsMadeOf skip listing
            (page, (get_episode_page parse_date resolve get feed_id cursor skip kind).1)
    unfolding get_episode_page
    get_episode_page-covers get feed_id cursor skip kind listing href page l h =
        let made =
          subst
            (λ o.
              MadeIn skip listing (of_listing parse_date resolve cursor skip o).0
                (of_listing parse_date resolve cursor skip o).1)
            (sym l) (resolved_page-MadeIn cursor skip listing href) in
        subst
          (λ o.
            MadeIn skip listing o
              (get_episode_page parse_date resolve get feed_id cursor skip kind).1)
          h made
