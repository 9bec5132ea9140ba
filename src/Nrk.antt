-- ===== src/Nrk.antt =====
-- internal/nrk: the client of NRK's API. Here what NRK lists, as it is decoded, and the small
-- functions on it. `parse_date` stands for Go's time.Parse with the three layouts of `ParseDate`.
pub mod Upstream
pub mod Media
pub mod Archive
pub mod NewEpisodes
use kringkasting.Base.{
  ℕ, ◌+◌, ◌*◌, Bool, ◌||◌, Option, none, some, List, [], ◌∷◌, leb, ◌==◌, if◌then◌else◌, Bytes,
  codes,
}
use kringkasting.Base.Map.{mem}
use kringkasting.Base.Ascii.{contains}
use kringkasting.Store.{Episode, CatalogKind, podcast, series}

-- `Episode` of types.go
pub record Listed : Type 0 where
  pub id : Bytes
  pub episode_id : Bytes
  pub clip_id : Bytes
  pub title : Bytes
  pub subtitle : Option Bytes
  pub date : Bytes
  pub duration_in_seconds : ℕ
  pub share : Option Bytes

-- `episodeWithMedia`
pub record WithMedia : Type 0 where
  pub listed : Listed
  pub open listed use *
  pub url : Bytes
  pub bytes : Option ℕ

pub record EpisodesPage : Type 0 where
  pub episodes : List Listed
  pub next : Option Bytes

-- `mediaResult`, with the link and the size where the episode is playable; the episode of an
-- `episodeWithMedia` is always the one that was asked for
pub data Resolved : Type 0 where
  playable : Bytes → Option ℕ → Resolved
  gone transient : Resolved

-- An answer of `getJSON`: the status, and the body if it is 200 and decodes.
pub record Answer : Type 0 where
  pub status : ℕ
  pub body : Option EpisodesPage

-- `catalogOrder`
abbrev pub catalog_order : Option CatalogKind → List CatalogKind
catalog_order none = podcast ∷ series ∷ []
catalog_order (some podcast) = podcast ∷ series ∷ []
catalog_order (some series) = series ∷ podcast ∷ []

abbrev pub is_transient : ℕ → Bool
is_transient status = (status == 0 || status == 429) || leb 500 status

-- `IsHLS`
unfoldable pub is_hls : Bytes → Bool
is_hls url = contains url (codes ".m3u8")

-- `clipIDs`
unfoldable pub clip_ids : List Listed → List (Bytes × Bytes)
clip_ids [] = []
clip_ids (e ∷ es) =
    let rest = clip_ids es in elim e.clip_id [ [] ↦ rest | c ∷ clip ↦ (e.id, e.clip_id) ∷ rest ]

-- `filterSkipped`
unfoldable pub filter_skipped : List Bytes → List Listed → List Listed
unfolding mem
filter_skipped skip [] = []
filter_skipped skip (e ∷ es) =
    let rest = filter_skipped skip es in if mem e.id skip then rest else e ∷ rest

-- What `collect` returns, and the ids that it reports as failed.
pub record Collected : Type 0 where
  pub found : List WithMedia
  pub failed : List Bytes
  pub transient_count : ℕ

-- One episode with its result, before the rest.
abbrev pub collect_one : Listed → Resolved → Collected → Collected
collect_one e (playable url bytes) rest = record rest {
  found = record { listed = e; url = url; bytes = bytes } ∷ rest.found;
}
collect_one e gone rest = record rest { failed = e.id ∷ rest.failed }
collect_one e transient rest = record rest { transient_count = rest.transient_count + 1 }

-- `collect` of the results of `resolveAll`, which come in the order of the episodes
unfoldable pub collect : (Listed → Resolved) → List Listed → Collected
collect resolve [] = record { found = []; failed = []; transient_count = 0 }
collect resolve (e ∷ es) = collect_one e (resolve e) (collect resolve es)

module _ (parse_date : Bytes → ℕ) where
  abbrev clip_or_none : Bytes → Option Bytes
  clip_or_none [] = none
  clip_or_none (c ∷ clip) = some (c ∷ clip)

  abbrev share_or_empty : Option Bytes → Bytes
  share_or_empty none = []
  share_or_empty (some href) = href

  -- `ParseEpisode`
  abbrev pub parse_episode : WithMedia → Episode
  parse_episode m = record {
    id = m.id;
    title = m.title;
    subtitle = m.subtitle;
    url = m.url;
    share_link = share_or_empty m.share;
    date = parse_date m.date;
    duration_in_seconds = m.duration_in_seconds;
    bytes = m.bytes;
    clip_id = clip_or_none m.clip_id;
    video_url = none;
  }

  unfoldable pub parse_episodes : List WithMedia → List Episode
  parse_episodes [] = []
  parse_episodes (m ∷ ms) = parse_episode m ∷ parse_episodes ms
