-- ===== src/Crawl/Run/Mark.antt =====
-- The mark of a complete archive, `backlog_complete` of the stored series, and the writes of the store.
use mathlib.Core.Path.{subst}
use kringkasting.Base.{
  ℕ, ◌-◌, ◌*◌, ◌≡◌, refl, sym, ◌∙◌, ◌≢◌, ◌⊎◌, inl, inr, Bool, true, false, ◌&&◌, Option, none, some,
  List, [], ◌∷◌, arith, Bool-cases, Option-cases, All, Bytes, same, same_iff,
}
use kringkasting.Base.Map.{
  Map, lookup, insert, delete, is_some, lookup-insert, lookup-insert_self, lookup-delete,
}
use kringkasting.Store.{Episode, EpisodeRow, rows_of, Series, SeriesRow, Db, bump}
use kringkasting.Store.Write.{
  write_series, add_episodes, put_series, put_episodes, has_series, upsert_series, update_row,
  set_backlog_state, touch_last_fetched, expire_series,
}
use kringkasting.Store.Failures.{record_episode_failure}
use kringkasting.Store.Videos.{set_clip_ids, set_video, set_video_row, same_text}
use kringkasting.Store.Delete.{delete_series_by_id, delete_rows}
use kringkasting.Store.Shown.{shown-update}
use kringkasting.Store.History.{
  Write, apply, replay, series_write, episodes_write, backlog_write, touch_write, expire_write,
  failure_write, clips_write, video_write, delete_write,
}
use kringkasting.Crawl.Run.{}

abbrev pub marked_row : Option SeriesRow → Bool
marked_row none = false
marked_row (some row) = row.backlog_complete

-- The archive of the feed is stored as complete.
abbrev pub is_marked : Bytes → Db → Bool
is_marked feed_id db = marked_row (lookup feed_id db.series_table)

-- The write does not mark the archive of the feed as complete.
abbrev pub MarksNot : Bytes → Write → Type 0
MarksNot feed_id (backlog_write id cursor complete) = (feed_id ≢ id) ⊎ (complete ≡ false)
MarksNot feed_id w = Unit

-- The archive is marked in the second database only if it is in the first.
abbrev pub NotMarked : Bytes → Db → Db → Type 0
NotMarked feed_id a b = is_marked feed_id b ≡ true → is_marked feed_id a ≡ true

-- What a key finds after the row of another one, or its own, was written or deleted.
inserted_other :
    (k j : Bytes) (row : SeriesRow) (m : Map SeriesRow)
    → same k j ≡ false
    → lookup j (insert k row m) ≡ lookup j m
inserted_other k j row m n = rw (lookup-insert, n)

inserted_self :
    (k j : Bytes) (row : SeriesRow) (m : Map SeriesRow)
    → same k j ≡ true
    → lookup j (insert k row m) ≡ some row
inserted_self k j row m y = rw (lookup-insert, y)

deleted_other :
    (k j : Bytes) (m : Map SeriesRow) → same k j ≡ false → lookup j (delete k m) ≡ lookup j m
deleted_other k j m n = rw (lookup-delete, n)

put_series-NotMarked :
    (feed_id : Bytes) (s : Series) (now : ℕ) (db : Db) → NotMarked feed_id db (put_series s now db)
unfolding put_series
put_series-NotMarked feed_id s now db h = elim (Bool-cases (same s.id feed_id)) [
  | inl y ↦ of_row (lookup s.id db.series_table) y refl (
      subst (λ o. marked_row o ≡ true)
        (inserted_self s.id feed_id (upsert_series (lookup s.id db.series_table) s now)
          db.series_table y)
        h)
  | inr n ↦
      subst (λ o. marked_row o ≡ true)
        (inserted_other s.id feed_id (upsert_series (lookup s.id db.series_table) s now)
          db.series_table n)
        h
]
  where
    of_row :
        (o : Option SeriesRow)
        → same s.id feed_id ≡ true
        → lookup s.id db.series_table ≡ o
        → (upsert_series o s now).backlog_complete ≡ true
        → marked_row (lookup feed_id db.series_table) ≡ true
    of_row none y e m = cc
    of_row (some old) y e m =
        subst (λ k. marked_row (lookup k db.series_table) ≡ true) ((same_iff s.id feed_id).0 y)
          (rw e m)

pub add_episodes-series :
    (ok : Bool) (id : Bytes) (es : List Episode) (db : Db)
    → (add_episodes ok id es db).0.series_table ≡ db.series_table
unfolding add_episodes put_episodes bump
add_episodes-series ok id es db = elim (Bool-cases (ok && has_series id db)) [
  | inl y ↦ rw y refl
  | inr n ↦ rw n refl
]

set_video-series :
    (id e : Bytes) (url : Option Bytes) (next : ℕ) (db : Db)
    → (set_video id e url next db).series_table ≡ db.series_table
unfolding set_video bump
set_video-series id e url next db = of_row (lookup e (rows_of id db.episode_table))
  where
    of_row :
        (o : Option EpisodeRow) → (set_video_row o id e url next db).series_table ≡ db.series_table
    of_row none = refl
    of_row (some row) = elim (Bool-cases (same_text row.video_url url)) [
      | inl y ↦ rw y refl
      | inr n ↦ rw n refl
    ]

-- Rows of the table of series that are as they were.
pub same_series-NotMarked :
    (feed_id : Bytes) (a b : Db) → b.series_table ≡ a.series_table → NotMarked feed_id a b
same_series-NotMarked feed_id a b e h = subst (λ t. marked_row (lookup feed_id t) ≡ true) e h

set_backlog_state-ne :
    (feed_id id : Bytes) (cursor : Option Bytes) (complete : Bool) (db : Db)
    → (feed_id ≢ id) ⊎ (complete ≡ false)
    → NotMarked feed_id db (set_backlog_state id cursor complete db)
unfolding set_backlog_state
set_backlog_state-ne feed_id id cursor complete db m h = of_row (lookup id db.series_table) refl h
  where
    changed : SeriesRow → SeriesRow
    changed row = record row { backlog_cursor = cursor; backlog_complete = complete }

    of_row :
        (o : Option SeriesRow)
        → lookup id db.series_table ≡ o
        → marked_row (lookup feed_id (update_row changed id o db.series_table)) ≡ true
        → marked_row (lookup feed_id db.series_table) ≡ true
    of_row none e h = h
    of_row (some row) e h = elim (Bool-cases (same id feed_id)) [
      | inl y ↦ elim m [
        | inl other ↦ absurd (other (sym ((same_iff id feed_id).0 y)))
        | inr unset ↦
            absurd
              (ground (arith, h, lookup-insert id feed_id (changed row) db.series_table, y, unset))
      ]
      | inr n ↦
          subst (λ o. marked_row o ≡ true)
            (inserted_other id feed_id (changed row) db.series_table n) h
    ]

delete_rows-NotMarked : (feed_id id : Bytes) (db : Db) → NotMarked feed_id db (delete_rows id db)
unfolding delete_rows
delete_rows-NotMarked feed_id id db h = elim (Bool-cases (same id feed_id)) [
  | inl y ↦ absurd (ground (arith, h, lookup-delete id feed_id db.series_table, y))
  | inr n ↦ subst (λ o. marked_row o ≡ true) (deleted_other id feed_id db.series_table n) h
]

apply-NotMarked :
    (feed_id : Bytes) (w : Write) (db : Db) → MarksNot feed_id w → NotMarked feed_id db (apply db w)
unfolding apply write_series put_episodes bump delete_series_by_id touch_last_fetched expire_series
    record_episode_failure set_clip_ids
apply-NotMarked feed_id (series_write true s now) db m h = put_series-NotMarked feed_id s now db h
apply-NotMarked feed_id (series_write false s now) db m h = h
apply-NotMarked feed_id (episodes_write ok id es) db m h =
    same_series-NotMarked feed_id db (add_episodes ok id es db).0 (add_episodes-series ok id es db)
      h
apply-NotMarked feed_id (backlog_write id cursor complete) db m h =
    set_backlog_state-ne feed_id id cursor complete db m h
apply-NotMarked feed_id (touch_write id now) db m h =
    sym (
      shown-update marked_row (λ row. record row { last_fetched_at = now }) (λ v. refl) id feed_id
        db.series_table)
    ∙ h
apply-NotMarked feed_id (expire_write id now) db m h =
    sym (
      shown-update marked_row (λ row. record row { last_fetched_at = now - 9 * 86400000 })
        (λ v. refl) id feed_id db.series_table)
    ∙ h
apply-NotMarked feed_id (failure_write true id e now) db m h = h
apply-NotMarked feed_id (failure_write false id e now) db m h = h
apply-NotMarked feed_id (clips_write id clips) db m h = h
apply-NotMarked feed_id (video_write id e url next) db m h =
    same_series-NotMarked feed_id db (set_video id e url next db)
      (set_video-series id e url next db) h
apply-NotMarked feed_id (delete_write true id) db m h = delete_rows-NotMarked feed_id id db h
apply-NotMarked feed_id (delete_write false id) db m h = h

pub replay-NotMarked :
    (feed_id : Bytes) (ws : List Write) (db : Db)
    → All (MarksNot feed_id) ws
    → NotMarked feed_id db (replay db ws)
unfolding replay
replay-NotMarked feed_id [] db m h = h
replay-NotMarked feed_id (w ∷ ws) db m h =
    apply-NotMarked feed_id w db m.0 (replay-NotMarked feed_id ws (apply db w) m.1 h)

pub set_backlog_state-marked :
    (feed_id : Bytes) (cursor : Option Bytes) (complete : Bool) (db : Db)
    → has_series feed_id db ≡ true
    → is_marked feed_id (set_backlog_state feed_id cursor complete db) ≡ complete
unfolding set_backlog_state has_series is_some
set_backlog_state-marked feed_id cursor complete db h =
    elim (Option-cases (lookup feed_id db.series_table)) [
      | inl absent ↦ absurd (ground (arith, h, absent))
      | inr (row, e) ↦ rw (e, lookup-insert_self) refl
    ]
