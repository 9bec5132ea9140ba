-- ===== src/Store/History.antt =====
-- The writes of the store as the steps of a history, in any order and with any outcomes.
use kringkasting.Base.{ℕ, ◌≢◌, Bool, Option, List, [], ◌∷◌, Bytes}
use kringkasting.Store.{Episode, Series, Db}
use kringkasting.Store.Write.{
  write_series, add_episodes, set_backlog_state, touch_last_fetched, expire_series,
}
use kringkasting.Store.Failures.{record_episode_failure}
use kringkasting.Store.Videos.{set_clip_ids, set_video}
use kringkasting.Store.Delete.{delete_series_by_id}

-- Each write with its arguments: the outcome of its transaction, and the time that it reads.
pub data Write : Type 0 where
  series_write : Bool → Series → ℕ → Write
  episodes_write : Bool → Bytes → List Episode → Write
  backlog_write : Bytes → Option Bytes → Bool → Write
  touch_write : Bytes → ℕ → Write
  expire_write : Bytes → ℕ → Write
  failure_write : Bool → Bytes → Bytes → ℕ → Write
  clips_write : Bytes → List (Bytes × Bytes) → Write
  video_write : Bytes → Bytes → Option Bytes → ℕ → Write
  delete_write : Bool → Bytes → Write

unfoldable pub apply : Db → Write → Db
apply db (series_write ok s now) = (write_series ok s now db).0
apply db (episodes_write ok id es) = (add_episodes ok id es db).0
apply db (backlog_write id cursor complete) = set_backlog_state id cursor complete db
apply db (touch_write id now) = touch_last_fetched id now db
apply db (expire_write id now) = expire_series id now db
apply db (failure_write ok id e now) = record_episode_failure ok id e now db
apply db (clips_write id clips) = set_clip_ids id clips db
apply db (video_write id e url next) = set_video id e url next db
apply db (delete_write ok id) = delete_series_by_id ok id db

unfoldable pub replay : Db → List Write → Db
replay db [] = db
replay db (w ∷ ws) = replay (apply db w) ws

-- The history holds no delete of the series.
abbrev pub Spares : Bytes → Write → Type 0
Spares id (delete_write ok other) = id ≢ other
Spares id w = Unit
