-- ===== src/Store/Shown.antt =====
-- What the feed document of a series shows of the database, and the versions that stand for it.
use kringkasting.Base.{
  ℕ, ◌+◌, ◌≤◌, ◌≡◌, refl, sym, ap, ◌∙◌, ◌≢◌, inl, inr, Option, none, some, List, [], ◌∷◌, arith,
  if◌then◌else◌, Bool-cases, Option-cases, Bytes, same, same_iff,
}
use kringkasting.Base.Map.{Map, lookup, lookup-insert}
use kringkasting.Store.{EpisodeRow, SeriesRow, Db, rows_of, data_version, bump, or_zero}
use kringkasting.Store.Write.{update}
use kringkasting.Store.Videos.{set_clips, with_clip}

-- What `AssembleFeed` shows of a stored episode: all but its clip reference.
pub record ShownEpisode : Type 0 where
  pub title : Bytes
  pub subtitle : Option Bytes
  pub url : Bytes
  pub share_link : Bytes
  pub date : ℕ
  pub duration_in_seconds : ℕ
  pub bytes : Option ℕ
  pub video_url : Option Bytes

abbrev pub shown_episode : Option EpisodeRow → Option ShownEpisode
shown_episode none = none
shown_episode (some row) = some (record {
  title = row.title;
  subtitle = row.subtitle;
  url = row.url;
  share_link = row.share_link;
  date = row.date;
  duration_in_seconds = row.duration_in_seconds;
  bytes = row.bytes;
  video_url = row.video_url;
})

-- What it shows of the series itself.
abbrev pub shown_series : Option SeriesRow → Option (Bytes × Option Bytes × Bytes × Bytes)
shown_series none = none
shown_series (some row) = some (row.title, row.subtitle, row.link, row.image_url)

-- The feed document of a series shows the same in both databases.
pub record SameShown (id : Bytes) (a b : Db) : Type 0 where
  pub series : shown_series (lookup id a.series_table) ≡ shown_series (lookup id b.series_table)
  pub episodes :
      (e : Bytes)
      → shown_episode (lookup e (rows_of id a.episode_table))
        ≡ shown_episode (lookup e (rows_of id b.episode_table))

pub SameShown-refl : (id : Bytes) (a : Db) → SameShown id a a
SameShown-refl id a = record { series = refl; episodes = λ e. refl }

pub SameShown-trans :
    {id : Bytes} {a b c : Db} → SameShown id a b → SameShown id b c → SameShown id a c
SameShown-trans p q = record {
  series = p.series ∙ q.series;
  episodes = λ e. p.episodes e ∙ q.episodes e;
}

-- A write either moves the version of the series on, or shows what was shown.
abbrev pub Sound : Bytes → Db → Db → Type 0
Sound id a b =
    (data_version id a ≤ data_version id b)
    × (data_version id b ≡ data_version id a → SameShown id a b)

pub data_version-bump :
    (id k : Bytes) (db : Db)
    → data_version id (bump k db)
      ≡ (if same k id then data_version id db + 1 else data_version id db)
unfolding data_version bump
data_version-bump id k db = ground (
  arith,
  lookup-insert k id (or_zero (lookup k db.versions) + 1) db.versions,
  same_iff k id,
  ap (λ t. lookup t db.versions) {x = k} {y = id},
)

pub SameShown-bump :
    {id : Bytes} {a b : Db} (k : Bytes) → SameShown id a b → SameShown id a (bump k b)
unfolding bump
SameShown-bump k h = record { series = h.series; episodes = h.episodes }

-- A change that leaves the versions alone and shows nothing else of the other series, followed by a
-- bump of its own series.
pub Sound-bump :
    (id k : Bytes) (a b : Db)
    → data_version id b ≡ data_version id a
    → (id ≢ k → SameShown id a b)
    → Sound id a (bump k b)
Sound-bump id k a b v h = elim (Bool-cases (same k id)) [
  | inl s ↦ rw data_version-bump (rw s (omega arith, λ e. absurd (omega arith)))
  | inr n ↦
      rw data_version-bump
        (rw n (omega arith, λ e. SameShown-bump k (h (λ p. ground (arith, same_iff k id)))))
]

-- A change that nothing shows.
pub Sound-quiet :
    (id : Bytes) (a b : Db)
    → data_version id b ≡ data_version id a
    → SameShown id a b
    → Sound id a b
Sound-quiet id a b v h = (omega arith, λ e. h)

module _ {ℓ κ} {V : Type ℓ} {W : Type κ} (shown : Option V → W) (f : V → V)
    (quiet : (v : V) → shown (some (f v)) ≡ shown (some v)) where
  pub shown-update :
      (k j : Bytes) (m : Map V) → shown (lookup j (update f k m)) ≡ shown (lookup j m)
  shown-update k j m = elim (Option-cases (lookup k m)) [
    | inl e ↦ rw e
    | inr (v, e) ↦ rw e (elim (Bool-cases (same k j)) [
      | inl s ↦
          rw (lookup-insert, s)
            (quiet v ∙ ap shown (sym e ∙ ap (λ t. lookup t m) ((same_iff k j).0 s)))
      | inr n ↦ rw (lookup-insert, n)
    ])
  ]

pub shown-set_clips :
    (clips : List (Bytes × Bytes)) (e : Bytes) (rows : Map EpisodeRow)
    → shown_episode (lookup e (set_clips clips rows)) ≡ shown_episode (lookup e rows)
unfolding set_clips
shown-set_clips [] e rows = refl
shown-set_clips ((id, clip) ∷ more) e rows =
    shown-set_clips more e (update (with_clip clip) id rows)
    ∙ shown-update shown_episode (with_clip clip) (λ v. refl) id e rows
