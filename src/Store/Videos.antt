-- ===== src/Store/Videos.antt =====
-- internal/store/video.go: the video columns and the clip references of stored episodes.
use kringkasting.Base.{
  ℕ, ◌≡◌, refl, ap, Bool, true, false, ◌&&◌, Option, none, some, List, [], ◌∷◌, ◌++◌, map, leb,
  if◌then◌else◌, take, Bytes, codes, same, same_iff,
}
use kringkasting.Base.Map.{Map, lookup, insert, is_some, keys_where}
use kringkasting.Retry
use kringkasting.Store.{Episode, EpisodeRow, Db, rows_of, bump}
use kringkasting.Store.Write.{update}
use kringkasting.Store.Read.{insert_by_date}

-- `a IS b` on nullable texts
unfoldable pub same_text : Option Bytes → Option Bytes → Bool
same_text none none = true
same_text none (some t) = false
same_text (some s) none = false
same_text (some s) (some t) = same s t

pub same_text_sound : (a b : Option Bytes) → same_text a b ≡ true → a ≡ b
unfolding same_text
same_text_sound none none h = refl
same_text_sound none (some t) h = cc
same_text_sound (some s) none h = cc
same_text_sound (some s) (some t) h = ap some ((same_iff s t).0 h)

abbrev pub with_clip : Bytes → EpisodeRow → EpisodeRow
with_clip clip row = record row { episode = record row.episode { clip_id = some clip } }

unfoldable pub set_clips : List (Bytes × Bytes) → Map EpisodeRow → Map EpisodeRow
set_clips [] rows = rows
set_clips ((id, clip) ∷ more) rows = set_clips more (update (with_clip clip) id rows)

-- A row that has the clip already is written with what it holds. An empty argument runs no
-- statement, as does a series with no rows.
unfoldable pub set_clip_ids : Bytes → List (Bytes × Bytes) → Db → Db
unfolding set_clips
set_clip_ids series_id clips db = record db {
  episode_table = update (set_clips clips) series_id db.episode_table;
}

abbrev pub checked : Option Bytes → ℕ → EpisodeRow → EpisodeRow
checked url next row = record {
  episode = record row.episode { video_url = url };
  video_next_check_at = some next;
}

-- The version moves only when the URL does.
abbrev pub set_video_row : Option EpisodeRow → Bytes → Bytes → Option Bytes → ℕ → Db → Db
set_video_row none series_id episode_id url next db = db
set_video_row (some row) series_id episode_id url next db =
    let db' = record db {
      episode_table =
          insert series_id
            (insert episode_id (checked url next row) (rows_of series_id db.episode_table))
            db.episode_table;
    } in
    if same_text row.video_url url then db' else bump series_id db'

unfoldable pub set_video : Bytes → Bytes → Option Bytes → ℕ → Db → Db
unfolding same_text bump
set_video series_id episode_id url next db =
    set_video_row (lookup episode_id (rows_of series_id db.episode_table)) series_id episode_id url
      next db

unfoldable pub has_video : Bytes → Db → Bool
unfolding keys_where
has_video series_id db =
    elim (keys_where (λ (row : EpisodeRow). is_some row.video_url)
      (rows_of series_id db.episode_table)) [ [] ↦ false | _ ∷ _ ↦ true ]

-- `VideoCandidate`
pub record VideoCandidate : Type 0 where
  pub series_id : Bytes
  pub episode_id : Bytes
  pub clip_id : Bytes
  pub date : ℕ
  pub duration_in_seconds : ℕ
  pub video_url : Option Bytes

abbrev pub due_at : ℕ → Option ℕ → Bool
due_at now none = true
due_at now (some next) = leb next now

-- The WHERE clause of `VideosDue` on one row, with its clip.
abbrev pub is_due : Db → ℕ → Option Bytes → Option ℕ → Bool
is_due db now none next = false
is_due db now (some clip) next = due_at now next && Retry.can db.retry (codes "video:" ++ clip) now

due_episodes : Db → ℕ → Map EpisodeRow → List Episode
due_episodes db now [] = []
due_episodes db now ((id, row) ∷ rows) =
    let rest = due_episodes db now rows in
    if is_due db now row.clip_id row.video_next_check_at
    then insert_by_date (record row.episode { id = id }) rest
    else rest

clip_or_empty : Option Bytes → Bytes
clip_or_empty none = []
clip_or_empty (some clip) = clip

unfoldable pub videos_due : Bytes → ℕ → ℕ → Db → List VideoCandidate
unfolding due_episodes clip_or_empty
videos_due series_id limit now db =
    map
      (λ e. record {
        series_id = series_id;
        episode_id = e.id;
        clip_id = clip_or_empty e.clip_id;
        date = e.date;
        duration_in_seconds = e.duration_in_seconds;
        video_url = e.video_url;
      })
      (take limit (due_episodes db now (rows_of series_id db.episode_table)))
