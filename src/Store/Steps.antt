-- ===== src/Store/Steps.antt =====
-- queries.go and video.go, step by step: a write commits its transaction, and moves a version after
-- it; ReadSeries takes the version, then selects the series, and then its episodes.
use kringkasting.Base.{
  ℕ, ◌≡◌, refl, ap, ◌∙◌, inl, inr, Bool, true, false, ◌&&◌, Option, none, some, List, [], ◌∷◌,
  arith, if◌then◌else◌, Bool-cases, Bytes, same_iff,
}
use kringkasting.Base.Map.{lookup, mem}
use kringkasting.Store.{EpisodeRow, Series, SeriesRow, Db, rows_of, data_version, bump}
use kringkasting.Store.Write.{
  write_series, add_episodes, put_series, put_episodes, has_series, set_backlog_state,
  touch_last_fetched, expire_series,
}
use kringkasting.Store.Read.{series_of, newest_first, read_series}
use kringkasting.Store.Failures.{record_episode_failure}
use kringkasting.Store.Videos.{set_clip_ids, set_video, set_video_row, same_text}
use kringkasting.Store.Delete.{delete_series_by_id, delete_rows}
use kringkasting.Store.History.{
  Write, apply, series_write, episodes_write, backlog_write, touch_write, expire_write,
  failure_write, clips_write, video_write, delete_write,
}
use kringkasting.Store.Shown.{SameShown, data_version-bump}
use kringkasting.Store.Versions.{apply-Sound}

-- The versions that a check of a video moves: that of the series, when the URL changed.
abbrev pub moved_by_check : Option EpisodeRow → Bytes → Option Bytes → List Bytes
moved_by_check none id url = []
moved_by_check (some row) id url = if same_text row.video_url url then [] else id ∷ []

-- The feeds whose versions a write moves after its commit.
unfoldable pub moved : Db → Write → List Bytes
unfolding has_series same_text
moved db (series_write ok s now) = if ok then s.id ∷ [] else []
moved db (episodes_write ok id es) = if ok && has_series id db then id ∷ [] else []
moved db (video_write id e url next) =
    moved_by_check (lookup e (rows_of id db.episode_table)) id url
moved db (delete_write ok id) = if ok then id ∷ [] else []
moved db (backlog_write id cursor complete) = []
moved db (touch_write id now) = []
moved db (expire_write id now) = []
moved db (failure_write ok id e now) = []
moved db (clips_write id clips) = []

-- The database after the commit, with the versions as they were.
unfoldable pub commit : Db → Write → Db
unfolding apply
commit db w = record (apply db w) { versions = db.versions }

unfoldable pub bump_all : List Bytes → Db → Db
unfolding bump
bump_all [] db = db
bump_all (id ∷ ids) db = bump_all ids (bump id db)

-- The selects of ReadSeries, and what it makes of them under a version.
abbrev pub select_series : Bytes → Db → Option SeriesRow
select_series id db = lookup id db.series_table

abbrev pub assemble_series : Bytes → Option SeriesRow → Db → ℕ → Option Series
assemble_series id row db version =
    series_of id row (newest_first (rows_of id db.episode_table)) version

-- A write with nothing in between its steps is the write.
pub apply-commit : (db : Db) (w : Write) → apply db w ≡ bump_all (moved db w) (commit db w)
unfolding apply commit moved bump_all write_series add_episodes put_series put_episodes bump
    set_video delete_series_by_id delete_rows set_backlog_state touch_last_fetched expire_series
    record_episode_failure set_clip_ids
apply-commit db (series_write true s now) = refl
apply-commit db (series_write false s now) = refl
apply-commit db (episodes_write ok id es) = of_test (ok && has_series id db)
  where
    written : Bool → Db × Bool
    written b = if b then (bump id (put_episodes id es db), true) else (db, false)

    of_test :
        (b : Bool)
        → (written b).0
          ≡ bump_all (if b then id ∷ [] else []) (record (written b).0 { versions = db.versions })
    of_test true = refl
    of_test false = refl
apply-commit db (backlog_write id cursor complete) = refl
apply-commit db (touch_write id now) = refl
apply-commit db (expire_write id now) = refl
apply-commit db (failure_write true id e now) = refl
apply-commit db (failure_write false id e now) = refl
apply-commit db (clips_write id clips) = refl
apply-commit db (video_write id e url next) = of_row (lookup e (rows_of id db.episode_table))
  where
    of_row :
        (o : Option EpisodeRow)
        → set_video_row o id e url next db
          ≡ bump_all
              (moved_by_check o id url)
              (record (set_video_row o id e url next db) { versions = db.versions })
    of_row none = refl
    of_row (some row) = elim (Bool-cases (same_text row.video_url url)) [
      | inl y ↦ rw y refl
      | inr n ↦ rw n refl
    ]
apply-commit db (delete_write true id) = refl
apply-commit db (delete_write false id) = refl

-- A read with nothing in between its steps is the read.
pub read_series-steps :
    (id : Bytes) (db : Db)
    → read_series id db ≡ assemble_series id (select_series id db) db (data_version id db)
unfolding read_series
read_series-steps id db = refl

bump_all-version :
    (id : Bytes) (ks : List Bytes) (db : Db)
    → mem id ks ≡ false
    → data_version id (bump_all ks db) ≡ data_version id db
unfolding bump_all mem
bump_all-version id [] db h = refl
bump_all-version id (k ∷ ks) db h =
    bump_all-version id ks (bump k db) (ground (arith, h))
    ∙ (data_version-bump id k db ∙ ground (arith, h, same_iff k id, same_iff id k))

pub commit-version :
    (id : Bytes) (db : Db) (w : Write) → data_version id (commit db w) ≡ data_version id db
unfolding commit data_version
commit-version id db w = refl

-- A commit that moves no version of a feed shows of it what was shown.
pub commit-SameShown :
    (id : Bytes) (db : Db) (w : Write) → mem id (moved db w) ≡ false → SameShown id db (commit db w)
commit-SameShown id db w h =
    let same_version =
      ap (data_version id) (apply-commit db w)
      ∙ (bump_all-version id (moved db w) (commit db w) h ∙ commit-version id db w) in
    let shown = (apply-Sound id db w).1 same_version in
    unfold commit in record { series = shown.series; episodes = shown.episodes }
