-- ===== src/Store/Versions.antt =====
-- The data version of a feed stands for what its feed document shows: the promise that the feed
-- cache relies on.
use mathlib.Core.Path.{subst}
use kringkasting.Base.{
  ℕ, ◌-◌, ◌*◌, ◌≤◌, ◌≡◌, refl, sym, ap, ◌∙◌, ◌≢◌, inl, inr, Bool, true, false, ◌&&◌, Option, some,
  List, [], ◌∷◌, arith, Bool-cases, Option-cases, Bytes, same, same_iff,
}
use kringkasting.Base.Map.{
  Map, lookup, insert, lookup-insert, lookup-insert_self, lookup-delete_ne, lookup-insert_ne,
}
use kringkasting.Store.{
  Episode, EpisodeRow, Series, SeriesRow, Db, rows_of, rows_or_empty, data_version,
}
use kringkasting.Store.Write.{
  write_series, add_episodes, set_backlog_state, touch_last_fetched, expire_series, update,
  put_series, put_episodes, insert_episodes, has_series, upsert_series,
}
use kringkasting.Store.Failures.{record_episode_failure}
use kringkasting.Store.Videos.{
  set_clip_ids, set_clips, set_video, same_text, same_text_sound, checked,
}
use kringkasting.Store.Delete.{delete_series_by_id, delete_rows}
use kringkasting.Store.History.{
  Write, apply, replay, series_write, episodes_write, backlog_write, touch_write, expire_write,
  failure_write, clips_write, video_write, delete_write,
}
use kringkasting.Store.Shown.{
  SameShown, Sound, shown_series, shown_episode, ShownEpisode, SameShown-refl, SameShown-trans,
  Sound-bump, Sound-quiet, shown-update, shown-set_clips,
}

-- The rows of another series are as they were.
rows-insert_ne {ℓ} :
    {V : Type ℓ} (id k : Bytes) (rows : Map V) (t : Map (Map V))
    → id ≢ k
    → rows_of id (insert k rows t) ≡ rows_of id t
rows-insert_ne id k rows t h = ap rows_or_empty (lookup-insert_ne k id rows t h)

abbrev shown_at : Bytes → Bytes → Map (Map EpisodeRow) → Option ShownEpisode
shown_at id x t = shown_episode (lookup x (rows_of id t))

checked-shown :
    (k e x : Bytes) (row : EpisodeRow) (url : Option Bytes) (next : ℕ) (t : Map (Map EpisodeRow))
    → lookup e (rows_of k t) ≡ some row
    → row.video_url ≡ url
    → shown_at k x (insert k (insert e (checked url next row) (rows_of k t)) t) ≡ shown_at k x t
checked-shown k e x row url next t found h = rw lookup-insert_self (elim (Bool-cases (same e x)) [
  | inl s ↦
      rw (lookup-insert, s)
        (ap (λ u. shown_episode (some (checked u next row))) (sym h)
          ∙ ap shown_episode
              (sym (subst (λ j. lookup j (rows_of k t) ≡ some row) ((same_iff e x).0 s) found)))
  | inr n ↦ rw (lookup-insert, n)
])

module _ (id : Bytes) (db : Db) where
  put_episodes-SameShown :
      (k : Bytes) (es : List Episode) → id ≢ k → SameShown id db (put_episodes k es db)
  unfolding put_episodes
  put_episodes-SameShown k es h = record {
    series = refl;
    episodes = λ e.
        ap (λ rows. shown_episode (lookup e rows))
          (sym (
            rows-insert_ne id k (insert_episodes es (rows_of k db.episode_table)) db.episode_table
              h));
  }

  put_series-SameShown : (s : Series) (now : ℕ) → id ≢ s.id → SameShown id db (put_series s now db)
  unfolding put_series
  put_series-SameShown s now h = record {
    series = ap shown_series (
        sym (
          lookup-insert_ne s.id id (upsert_series (lookup s.id db.series_table) s now)
            db.series_table h));
    episodes = λ e. refl;
  }

  delete_rows-SameShown : (k : Bytes) → id ≢ k → SameShown id db (delete_rows k db)
  unfolding delete_rows
  delete_rows-SameShown k h = record {
    series = ap shown_series (sym (lookup-delete_ne k id db.series_table h));
    episodes = λ e.
        ap (λ rows. shown_episode (lookup e (rows_or_empty rows)))
          (sym (lookup-delete_ne k id db.episode_table h));
  }

module _ (id : Bytes) (db : Db) where
  write_series-Sound : (ok : Bool) (s : Series) (now : ℕ) → Sound id db (write_series ok s now db).0
  unfolding write_series data_version
  write_series-Sound false s now = Sound-quiet id db db refl (SameShown-refl id db)
  write_series-Sound true s now =
      Sound-bump id s.id db (put_episodes s.id s.episodes (put_series s now db)) refl (λ h.
        SameShown-trans (put_series-SameShown id db s now h)
          (put_episodes-SameShown id (put_series s now db) s.id s.episodes h))

  add_episodes-Sound :
      (ok : Bool) (k : Bytes) (es : List Episode) → Sound id db (add_episodes ok k es db).0
  unfolding add_episodes data_version
  add_episodes-Sound ok k es = elim (Bool-cases (ok && has_series k db)) [
    | inl h ↦
        rw h (Sound-bump id k db (put_episodes k es db) refl (put_episodes-SameShown id db k es))
    | inr h ↦ rw h (Sound-quiet id db db refl (SameShown-refl id db))
  ]

  delete-Sound : (ok : Bool) (k : Bytes) → Sound id db (delete_series_by_id ok k db)
  unfolding delete_series_by_id data_version
  delete-Sound false k = Sound-quiet id db db refl (SameShown-refl id db)
  delete-Sound true k = Sound-bump id k db (delete_rows k db) refl (delete_rows-SameShown id db k)

  update-Sound :
      (f : SeriesRow → SeriesRow)
      (quiet : (r : SeriesRow) → shown_series (some (f r)) ≡ shown_series (some r)) (k : Bytes)
      → Sound id db (record db { series_table = update f k db.series_table })
  unfolding data_version
  update-Sound f quiet k =
      Sound-quiet id db (record db { series_table = update f k db.series_table }) refl
        (record {
          series = sym (shown-update shown_series f quiet k id db.series_table);
          episodes = λ e. refl;
        })

  clips-Sound : (k : Bytes) (clips : List (Bytes × Bytes)) → Sound id db (set_clip_ids k clips db)
  unfolding set_clip_ids data_version
  clips-Sound k clips = Sound-quiet id db (set_clip_ids k clips db) refl (record {
    series = refl;
    episodes = λ e. sym (
        shown-update (λ o. shown_episode (lookup e (rows_or_empty o))) (set_clips clips)
          (λ rows. shown-set_clips clips e rows) k id db.episode_table);
  })

  failure-Sound :
      (ok : Bool) (k e : Bytes) (now : ℕ) → Sound id db (record_episode_failure ok k e now db)
  unfolding record_episode_failure data_version
  failure-Sound false k e now = Sound-quiet id db db refl (SameShown-refl id db)
  failure-Sound true k e now =
      Sound-quiet id db (record_episode_failure true k e now db) refl
        (record { series = refl; episodes = λ x. refl })

  -- A stored check of one row of the series `k`.
  check_row-SameShown :
      (k : Bytes) (rows : Map EpisodeRow)
      → id ≢ k
      → SameShown id db (record db { episode_table = insert k rows db.episode_table })
  check_row-SameShown k rows h = record {
    series = refl;
    episodes = λ x.
        ap (λ (m : Map EpisodeRow). shown_episode (lookup x m))
          (sym (rows-insert_ne id k rows db.episode_table h));
  }

  same_url-SameShown :
      (k e : Bytes) (row : EpisodeRow) (url : Option Bytes) (next : ℕ)
      → lookup e (rows_of k db.episode_table) ≡ some row
      → row.video_url ≡ url
      → SameShown id db (record db {
        episode_table =
            insert k
              (insert e (checked url next row) (rows_of k db.episode_table))
              db.episode_table;
      })
  same_url-SameShown k e row url next found h = record {
    series = refl;
    episodes = λ x. elim (Bool-cases (same k id)) [
      | inl s ↦
          subst (λ j. shown_at j x db.episode_table ≡ shown_at j x changed) ((same_iff k id).0 s)
            (sym (checked-shown k e x row url next db.episode_table found h))
      | inr n ↦
          ap (λ (m : Map EpisodeRow). shown_episode (lookup x m))
            (sym (rows-insert_ne id k rows db.episode_table (λ p. ground (arith, same_iff k id))))
    ];
  }
    where
      rows : Map EpisodeRow
      rows = insert e (checked url next row) (rows_of k db.episode_table)

      changed : Map (Map EpisodeRow)
      changed = insert k rows db.episode_table

  video-Sound :
      (k e : Bytes) (url : Option Bytes) (next : ℕ) → Sound id db (set_video k e url next db)
  unfolding set_video data_version
  video-Sound k e url next = elim (Option-cases (lookup e (rows_of k db.episode_table))) [
    | inl h ↦ rw h (Sound-quiet id db db refl (SameShown-refl id db))
    | inr (row, h) ↦ rw h (elim (Bool-cases (same_text row.video_url url)) [
      | inl s ↦ rw s (
          Sound-quiet id db
            (record db {
              episode_table =
                  insert k (insert e (checked url next row) (rows_of k db.episode_table))
                    db.episode_table;
            })
            refl (same_url-SameShown k e row url next h (same_text_sound row.video_url url s)))
      | inr n ↦ rw n (
          Sound-bump id k db
            (record db {
              episode_table =
                  insert k (insert e (checked url next row) (rows_of k db.episode_table))
                    db.episode_table;
            })
            refl
            (check_row-SameShown k (insert e (checked url next row) (rows_of k db.episode_table))))
    ])
  ]

  pub apply-Sound : (w : Write) → Sound id db (apply db w)
  unfolding apply
  apply-Sound (series_write ok s now) = write_series-Sound ok s now
  apply-Sound (episodes_write ok k es) = add_episodes-Sound ok k es
  apply-Sound (backlog_write k cursor complete) =
      unfold set_backlog_state in
      update-Sound (λ row. record row { backlog_cursor = cursor; backlog_complete = complete })
        (λ r. refl) k
  apply-Sound (touch_write k now) =
      unfold touch_last_fetched in
      update-Sound (λ row. record row { last_fetched_at = now }) (λ r. refl) k
  apply-Sound (expire_write k now) =
      unfold expire_series in
      update-Sound (λ row. record row { last_fetched_at = now - 9 * 86400000 }) (λ r. refl) k
  apply-Sound (failure_write ok k e now) = failure-Sound ok k e now
  apply-Sound (clips_write k clips) = clips-Sound k clips
  apply-Sound (video_write k e url next) = video-Sound k e url next
  apply-Sound (delete_write ok k) = delete-Sound ok k

pub Sound-trans : (id : Bytes) (a b c : Db) → Sound id a b → Sound id b c → Sound id a c
Sound-trans id a b c p q =
    (omega arith, λ e. SameShown-trans (p.1 (omega arith)) (q.1 (omega arith)))

replay-Sound : (id : Bytes) (ws : List Write) (db : Db) → Sound id db (replay db ws)
unfolding replay
replay-Sound id [] db = Sound-quiet id db db refl (SameShown-refl id db)
replay-Sound id (w ∷ ws) db =
    Sound-trans id db (apply db w) (replay (apply db w) ws) (apply-Sound id db w)
      (replay-Sound id ws (apply db w))

-- However the store is written, with whatever transactions failing, the version of a feed never
-- falls; and at two times with the same version the feed document has the same to show, both of the
-- series and of each of its episodes.
pub data_version_sound :
    (id : Bytes) (ws : List Write) (db : Db)
    → (data_version id db ≤ data_version id (replay db ws))
      × (data_version id (replay db ws) ≡ data_version id db → SameShown id db (replay db ws))
data_version_sound id ws db = replay-Sound id ws db
