-- ===== src/Store/Write.antt =====
-- queries.go: the writes of series and episodes, each with the move of the version that follows its
-- commit; Steps has the two apart.
use kringkasting.Base.{
  ℕ, ◌-◌, ◌*◌, Bool, true, false, ◌&&◌, Option, none, some, List, [], ◌∷◌, if◌then◌else◌, Bytes,
}
use kringkasting.Base.Map.{Map, lookup, insert, is_some}
use kringkasting.Store.{Episode, EpisodeRow, Series, SeriesRow, Db, rows_of, coalesce, bump}

-- The upsert of `insertEpisodes`: the video columns are not among those it writes.
abbrev pub upsert_row : Option EpisodeRow → Episode → EpisodeRow
upsert_row none e = record { episode = record e { video_url = none }; video_next_check_at = none }
upsert_row (some old) e = record {
  episode = record e {
    bytes = coalesce e.bytes old.bytes;
    clip_id = coalesce e.clip_id old.clip_id;
    video_url = old.video_url;
  };
  video_next_check_at = old.video_next_check_at;
}

unfoldable pub insert_episodes : List Episode → Map EpisodeRow → Map EpisodeRow
insert_episodes [] rows = rows
insert_episodes (e ∷ es) rows =
    insert_episodes es (insert e.id (upsert_row (lookup e.id rows) e) rows)

-- The upsert of `WriteSeries`: a new row has the defaults of the backlog columns.
abbrev pub upsert_series : Option SeriesRow → Series → ℕ → SeriesRow
upsert_series none s now = record {
  title = s.title;
  subtitle = s.subtitle;
  link = s.link;
  image_url = s.image_url;
  last_fetched_at = s.last_fetched_at;
  backlog_complete = false;
  backlog_cursor = none;
  catalog_kind = s.catalog_kind;
  is_umbrella = s.is_umbrella;
  metadata_refreshed_at = some now;
}
upsert_series (some old) s now = record {
  title = s.title;
  subtitle = s.subtitle;
  link = s.link;
  image_url = s.image_url;
  last_fetched_at = s.last_fetched_at;
  backlog_complete = old.backlog_complete;
  backlog_cursor = old.backlog_cursor;
  catalog_kind = coalesce s.catalog_kind old.catalog_kind;
  is_umbrella = s.is_umbrella;
  metadata_refreshed_at = some now;
}

unfoldable pub put_episodes : Bytes → List Episode → Db → Db
unfolding insert_episodes
put_episodes id es db = record db {
  episode_table = insert id (insert_episodes es (rows_of id db.episode_table)) db.episode_table;
}

unfoldable pub put_series : Series → ℕ → Db → Db
put_series s now db = record db {
  series_table = insert s.id (upsert_series (lookup s.id db.series_table) s now) db.series_table;
}

unfoldable pub has_series : Bytes → Db → Bool
has_series id db = is_some (lookup id db.series_table)

unfoldable pub write_series : Bool → Series → ℕ → Db → Db × Bool
unfolding put_series put_episodes bump
write_series committed s now db =
    if committed
    then (bump s.id (put_episodes s.id s.episodes (put_series s now db)), true)
    else (db, false)

-- The transaction fails too when the series is gone.
unfoldable pub add_episodes : Bool → Bytes → List Episode → Db → Db × Bool
unfolding put_episodes has_series bump
add_episodes committed id es db =
    if committed && has_series id db then (bump id (put_episodes id es db), true) else (db, false)

-- A statement `UPDATE series SET … WHERE id = ?`.
abbrev pub update_row {ℓ} : {V : Type ℓ} → (V → V) → Bytes → Option V → Map V → Map V
update_row f id none rows = rows
update_row f id (some row) rows = insert id (f row) rows

abbrev pub update {ℓ} : {V : Type ℓ} → (V → V) → Bytes → Map V → Map V
update f id rows = update_row f id (lookup id rows) rows

unfoldable pub set_backlog_state : Bytes → Option Bytes → Bool → Db → Db
set_backlog_state id cursor complete db = record db {
  series_table =
      update (λ row. record row { backlog_cursor = cursor; backlog_complete = complete }) id
        db.series_table;
}

unfoldable pub touch_last_fetched : Bytes → ℕ → Db → Db
touch_last_fetched id now db = record db {
  series_table = update (λ row. record row { last_fetched_at = now }) id db.series_table;
}

-- nine days back
unfoldable pub expire_series : Bytes → ℕ → Db → Db
expire_series id now db = record db {
  series_table =
      update (λ row. record row { last_fetched_at = now - 9 * 86400000 }) id db.series_table;
}
