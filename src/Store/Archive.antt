-- ===== src/Store/Archive.antt =====
-- The archive accumulates: no write but a delete loses an episode, and none loses what was known.
use mathlib.Core.Path.{subst}
use kringkasting.Base.{
  ℕ, ◌≡◌, refl, sym, ◌≢◌, inl, inr, Bool, true, false, ◌&&◌, Option, some, List, [], ◌∷◌, arith,
  Bool-cases, Option-cases, All, Bytes, same, same_iff,
}
use kringkasting.Base.Map.{Map, lookup, insert, delete, is_some, lookup-insert, lookup-delete_ne}
use kringkasting.Store.{Episode, EpisodeRow, Db, rows_of}
use kringkasting.Store.Write.{
  insert_episodes, update, write_series, add_episodes, put_episodes, put_series, has_series,
  set_backlog_state, touch_last_fetched, expire_series,
}
use kringkasting.Store.Failures.{record_episode_failure}
use kringkasting.Store.Videos.{set_clip_ids, set_clips, with_clip, set_video, same_text, checked}
use kringkasting.Store.Delete.{delete_series_by_id, delete_rows}
use kringkasting.Store.History.{
  Write, apply, replay, Spares, series_write, episodes_write, backlog_write, touch_write,
  expire_write, failure_write, clips_write, video_write, delete_write,
}
use kringkasting.Store.Upsert.{insert_episodes-Keeps}

-- What no write forgets of a stored episode: its size and its clip reference, once known.
pub record Knows (old new : EpisodeRow) : Type 0 where
  pub bytes : is_some old.bytes ≡ true → is_some new.bytes ≡ true
  pub clip_id : is_some old.clip_id ≡ true → is_some new.clip_id ≡ true

Knows-refl : (a : EpisodeRow) → Knows a a
Knows-refl a = record { bytes = λ h. h; clip_id = λ h. h }

Knows-trans : {a b c : EpisodeRow} → Knows a b → Knows b c → Knows a c
Knows-trans p q = record {
  bytes = λ h. q.bytes (p.bytes h);
  clip_id = λ h. q.clip_id (p.clip_id h);
}

-- The episode `e` is among the rows, and what `old` knows of it is known.
abbrev pub Stored : EpisodeRow → Bytes → Map EpisodeRow → Type 0
Stored old e rows = (new : EpisodeRow) × (lookup e rows ≡ some new) × Knows old new

Stored-insert :
    (old : EpisodeRow) (e k : Bytes) (row : EpisodeRow) (rows : Map EpisodeRow)
    → Stored old e rows
    → ((mid : EpisodeRow) → lookup k rows ≡ some mid → Knows mid row)
    → Stored old e (insert k row rows)
Stored-insert old e k row rows (mid, found, known) step = elim (Bool-cases (same k e)) [
  | inl s ↦ (
    row,
    rw (lookup-insert, s),
    Knows-trans known
        (step mid (subst (λ j. lookup j rows ≡ some mid) (sym ((same_iff k e).0 s)) found)),
  )
  | inr n ↦ (mid, rw (lookup-insert, n) found, known)
]

Stored-set_clips :
    (old : EpisodeRow) (e : Bytes) (clips : List (Bytes × Bytes)) (rows : Map EpisodeRow)
    → Stored old e rows
    → Stored old e (set_clips clips rows)
unfolding set_clips
Stored-set_clips old e [] rows h = h
Stored-set_clips old e ((id, clip) ∷ more) rows h =
    Stored-set_clips old e more (update (with_clip clip) id rows)
      (elim (Option-cases (lookup id rows)) [
        | inl n ↦ rw n h
        | inr (row, f) ↦ rw f (
            Stored-insert old e id (with_clip clip row) rows h (λ mid g. record {
              bytes = λ b. ground (arith, f, g);
              clip_id = λ c. unfold is_some in refl;
            }))
      ])

Stored-insert_episodes :
    (old : EpisodeRow) (e : Bytes) (es : List Episode) (rows : Map EpisodeRow)
    → Stored old e rows
    → Stored old e (insert_episodes es rows)
Stored-insert_episodes old e es rows (mid, found, known) =
    let (new, there, kept) = insert_episodes-Keeps es e rows mid found in
    (new, there, Knows-trans known (record { bytes = kept.bytes; clip_id = kept.clip_id }))

-- The rows of one series after its rows, or those of another, are written.
Stored-rows :
    (old : EpisodeRow) (id k e : Bytes) (rows : Map EpisodeRow) (t : Map (Map EpisodeRow))
    → Stored old e (rows_of id t)
    → (Stored old e (rows_of k t) → Stored old e rows)
    → Stored old e (rows_of id (insert k rows t))
Stored-rows old id k e rows t h step = elim (Bool-cases (same k id)) [
  | inl s ↦
      rw (lookup-insert, s)
        (step (subst (λ j. Stored old e (rows_of j t)) (sym ((same_iff k id).0 s)) h))
  | inr n ↦ rw (lookup-insert, n) h
]

module _ (old : EpisodeRow) (id e : Bytes) where
  abbrev StoredIn : Db → Type 0
  StoredIn db = Stored old e (rows_of id db.episode_table)

  put_episodes-Stored :
      (k : Bytes) (es : List Episode) (db : Db) → StoredIn db → StoredIn (put_episodes k es db)
  unfolding put_episodes
  put_episodes-Stored k es db h =
      Stored-rows old id k e (insert_episodes es (rows_of k db.episode_table)) db.episode_table h
        (Stored-insert_episodes old e es (rows_of k db.episode_table))

  video-Stored :
      (k x : Bytes) (url : Option Bytes) (next : ℕ) (db : Db)
      → StoredIn db
      → StoredIn (set_video k x url next db)
  unfolding set_video
  video-Stored k x url next db h = elim (Option-cases (lookup x (rows_of k db.episode_table))) [
    | inl n ↦ rw n h
    | inr (row, f) ↦
        let stored : StoredIn (record db {
          episode_table =
              insert k (insert x (checked url next row) (rows_of k db.episode_table))
                db.episode_table;
        }) =
          Stored-rows old id k e (insert x (checked url next row) (rows_of k db.episode_table))
            db.episode_table h
            (λ g.
              Stored-insert old e x (checked url next row) (rows_of k db.episode_table) g (λ mid m.
                record {
                  bytes = λ b. ground (arith, f, m);
                  clip_id = λ c. ground (arith, f, m);
                })) in
        rw f (elim (Bool-cases (same_text row.video_url url)) [
          | inl s ↦ rw s stored
          | inr s ↦ rw s stored
        ])
  ]

  clips-Stored :
      (k : Bytes) (clips : List (Bytes × Bytes)) (db : Db)
      → StoredIn db
      → StoredIn (set_clip_ids k clips db)
  unfolding set_clip_ids
  clips-Stored k clips db h = elim (Option-cases (lookup k db.episode_table)) [
    | inl n ↦ rw n h
    | inr (rows, f) ↦ rw f (
        Stored-rows old id k e (set_clips clips rows) db.episode_table h
          (λ g. Stored-set_clips old e clips rows (rw f at g)))
  ]

  add_episodes-Stored :
      (ok : Bool) (k : Bytes) (es : List Episode) (db : Db)
      → StoredIn db
      → StoredIn (add_episodes ok k es db).0
  unfolding add_episodes
  add_episodes-Stored ok k es db h = elim (Bool-cases (ok && has_series k db)) [
    | inl y ↦ rw y (put_episodes-Stored k es db h)
    | inr n ↦ rw n h
  ]

  Stored-delete :
      (k : Bytes) (db : Db)
      → id ≢ k
      → StoredIn db
      → Stored old e (rows_of id (delete k db.episode_table))
  Stored-delete k db sp h = rw (lookup-delete_ne k id db.episode_table sp) h

  apply-Stored : (w : Write) (db : Db) → Spares id w → StoredIn db → StoredIn (apply db w)
  unfolding apply
  apply-Stored (series_write true s now) db sp h =
      unfold write_series in put_episodes-Stored s.id s.episodes (put_series s now db) h
  apply-Stored (series_write false s now) db sp h = unfold write_series in h
  apply-Stored (episodes_write ok k es) db sp h = add_episodes-Stored ok k es db h
  apply-Stored (backlog_write k cursor complete) db sp h = unfold set_backlog_state in h
  apply-Stored (touch_write k now) db sp h = unfold touch_last_fetched in h
  apply-Stored (expire_write k now) db sp h = unfold expire_series in h
  apply-Stored (failure_write true k x now) db sp h = unfold record_episode_failure in h
  apply-Stored (failure_write false k x now) db sp h = unfold record_episode_failure in h
  apply-Stored (clips_write k clips) db sp h = clips-Stored k clips db h
  apply-Stored (video_write k x url next) db sp h = video-Stored k x url next db h
  apply-Stored (delete_write true k) db sp h =
      unfold delete_series_by_id delete_rows in Stored-delete k db sp h
  apply-Stored (delete_write false k) db sp h = unfold delete_series_by_id in h

  replay-Stored :
      (ws : List Write) (db : Db) → All (Spares id) ws → StoredIn db → StoredIn (replay db ws)
  unfolding replay
  replay-Stored [] db sp h = h
  replay-Stored (w ∷ ws) db sp h = replay-Stored ws (apply db w) sp.1 (apply-Stored w db sp.0 h)

-- An episode of a series that is stored stays stored through any writes, with whatever
-- transactions failing, that do not delete the series; and a size or a clip reference that was
-- known of it stays known.
pub archive_accumulates :
    (id e : Bytes) (old : EpisodeRow) (ws : List Write) (db : Db)
    → lookup e (rows_of id db.episode_table) ≡ some old
    → All (Spares id) ws
    → Stored old e (rows_of id (replay db ws).episode_table)
archive_accumulates id e old ws db h sp = replay-Stored old id e ws db sp (old, h, Knows-refl old)
