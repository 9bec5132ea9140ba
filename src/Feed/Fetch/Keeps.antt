-- ===== src/Feed/Fetch/Keeps.antt =====
-- refresh.go: no fetch takes a stored episode away.
use mathlib.Core.Path.{subst}
use kringkasting.Base.{
  ℕ, ◌-◌, ◌≡◌, sym, ◌∙◌, inl, inr, Bool, true, false, not, ◌&&◌, Option, none, some, List, [], ◌∷◌,
  arith, leb, if◌then◌else◌, Bool-cases, Bytes,
}
use kringkasting.Base.Map.{lookup, is_some}
use kringkasting.Store.{Episode, Series, Db, Progress, CatalogKind, rows_of, or_zero}
use kringkasting.Store.Write.{write_series, touch_last_fetched}
use kringkasting.Store.Videos.{set_clip_ids}
use kringkasting.Store.History.{apply, replay, series_write, clips_write, touch_write}
use kringkasting.Crawl.Run.{record_failures, store_page}
use kringkasting.Crawl.Run.Page.{
  Grows, replay-Grows, record_failures-episodes, store_page-has_episode, store_page-refused,
}
use kringkasting.Nrk.{parse_episodes}
use kringkasting.Nrk.NewEpisodes.{NewEpisodes}
use kringkasting.Feed.Refresh.{progress_key}
use kringkasting.Feed.Fetch.{
  Fetched, found, not_found, unavailable, Surroundings, told, full_of, full_refresh, over, settled,
  episodes_added, after_walk, walk_of, stop_ids, cursor_of, save_progress, delete_progress,
  refresh_listing, metadata_of, refresh_metadata, cheap_kind, clear_refresh, initial_stored,
  initial_of, initial_fetch, stale_age, with_metadata, update_in, skip_of, update_fetch,
  full_stored, metadata_ttl,
}

set_clip_ids-Grows :
    (id : Bytes) (clips : List (Bytes × Bytes)) (db : Db) → Grows id db (set_clip_ids id clips db)
set_clip_ids-Grows id clips db =
    unfold replay apply in replay-Grows id (clips_write id clips ∷ []) db (tt, tt)

told-Grows :
    (id : Bytes) (failed : List Bytes) (clips : List (Bytes × Bytes)) (now : ℕ) (db : Db)
    → Grows id db (told id failed clips now db)
unfolding told
told-Grows id failed clips now db e h =
    set_clip_ids-Grows id clips (record_failures id failed now db) e (
      subst (λ t. is_some (lookup e (rows_of id t)) ≡ true)
        (sym (record_failures-episodes id failed now db)) h)

write_series-Grows :
    (ok : Bool) (id : Bytes) (s : Series) (now : ℕ) (db : Db)
    → Grows id db (write_series ok s now db).0
write_series-Grows ok id s now db =
    unfold replay apply in replay-Grows id (series_write ok s now ∷ []) db (tt, tt)

touch-Grows : (id : Bytes) (now : ℕ) (db : Db) → Grows id db (touch_last_fetched id now db)
touch-Grows id now db = unfold replay apply in replay-Grows id (touch_write id now ∷ []) db (tt, tt)

store_page-Grows :
    (ok : Bool) (id : Bytes) (es : List Episode) (db : Db) → Grows id db (store_page ok id es db).0
store_page-Grows ok id es db e h = elim (Bool-cases (store_page ok id es db).1) [
  | inl stored ↦ store_page-has_episode ok id es db stored e ∙ ground arith
  | inr refused ↦ rw (store_page-refused ok id es db refused) h
]

module _ (w : Surroundings) (existing : Series) where
  abbrev id : Bytes
  id = existing.id

  full_stored-Grows :
      (incomplete : Bool) (db : Db) (ok : Bool)
      → Grows id db (full_stored w existing incomplete (db, ok)).0
  full_stored-Grows true db true e h = h
  full_stored-Grows false db true e h = h
  full_stored-Grows incomplete db false e h = h

  full_of-Grows :
      (got : Fetched) (incomplete : Bool) (db : Db)
      → Grows id db (full_of w existing got incomplete db).0
  full_of-Grows unavailable incomplete db e h = h
  full_of-Grows not_found incomplete db e h = h
  full_of-Grows (found s) incomplete db e h =
      let dated =
        if incomplete then record s { last_fetched_at = existing.last_fetched_at } else s in
      let r = write_series w.written dated w.now db in
      full_stored-Grows incomplete r.0 r.1 e (write_series-Grows w.written id dated w.now db e h)

  full_refresh-Grows :
      (skip : List Bytes) (db : Db) → Grows id db (full_refresh w existing skip db).0
  unfolding full_refresh
  full_refresh-Grows skip db e h =
      let got = w.full id skip existing.catalog_kind in
      full_of-Grows got.outcome got.incomplete (told id got.failed got.clips w.now db) e
        (told-Grows id got.failed got.clips w.now db e h)

  over-Grows : (db : Db) → Grows id db (over w existing db).0
  over-Grows db e h = touch-Grows id w.now (clear_refresh id (delete_progress w existing db)) e h

  settled-Grows :
      (saw_all : Bool) (href : Option Bytes) (stop : List Bytes) (db : Db)
      → Grows id db (settled w existing saw_all href stop db).0
  settled-Grows saw_all none stop db e h = over-Grows db e h
  settled-Grows true (some href) stop db e h = over-Grows db e h
  settled-Grows false (some href) stop db e h = h

  episodes_added-Grows :
      (r : NewEpisodes) (stop : List Bytes) (db : Db) (ok : Bool)
      → Grows id db (episodes_added w existing r stop (db, ok)).0
  episodes_added-Grows r stop db true e h = settled-Grows r.saw_all_pages r.resume_href stop db e h
  episodes_added-Grows r stop db false e h = h

  after_walk-Grows :
      (r : Option NewEpisodes) (skip stop : List Bytes) (db : Db)
      → Grows id db (after_walk w existing r skip stop db).0
  after_walk-Grows none skip stop db e h = h
  after_walk-Grows (some r) skip stop db e h = elim (Bool-cases r.is_gone) [
    | inl gone ↦ rw gone (full_refresh-Grows skip (delete_progress w existing db) e h)
    | inr there ↦
        let es = parse_episodes w.parse_date r.episodes in
        let page = store_page w.added id es db in
        rw there
          (episodes_added-Grows r stop page.0 page.1 e (store_page-Grows w.added id es db e h))
  ]

  refresh_listing-Grows :
      (skip : List Bytes) (kind : CatalogKind) (saved : Option Progress) (db : Db)
      → Grows id db (refresh_listing w existing skip kind saved db).0
  unfolding refresh_listing
  refresh_listing-Grows skip kind saved db e h =
      let walk = walk_of w existing skip kind saved in
      let begun =
        save_progress w existing (cursor_of w existing kind saved) (stop_ids w existing saved) db in
      after_walk-Grows walk.result skip (stop_ids w existing saved)
        (told id walk.failed walk.clips w.now begun) e
        (told-Grows id walk.failed walk.clips w.now begun e h)

  metadata_of-Grows : (got : Fetched) (db : Db) → Grows id db (metadata_of w existing got db).0
  metadata_of-Grows (found s) db e h =
      write_series-Grows w.metadata_written id
        (record s { last_fetched_at = existing.last_fetched_at }) w.now db e h
  metadata_of-Grows not_found db e h = h
  metadata_of-Grows unavailable db e h = h

  refresh_metadata-Grows :
      (kind : CatalogKind) (saved : Option Progress) (db : Db)
      → Grows id db (refresh_metadata w existing kind saved db).0
  unfolding refresh_metadata
  refresh_metadata-Grows kind saved db =
      let b =
        not (is_some saved) && leb metadata_ttl (w.now - or_zero existing.metadata_refreshed_at) in
      elim (Bool-cases b) [
        | inl due ↦ rw due (metadata_of-Grows (w.metadata id kind) db)
        | inr early ↦ rw early (λ e h. h)
      ]

  with_metadata-Grows :
      (skip : List Bytes) (kind : CatalogKind) (saved : Option Progress) (db : Db) (ok : Bool)
      → Grows id db (with_metadata w existing skip kind saved (db, ok)).0
  with_metadata-Grows skip kind saved db true e h = refresh_listing-Grows skip kind saved db e h
  with_metadata-Grows skip kind saved db false e h = h

  update_in-Grows :
      (kind : Option CatalogKind) (db : Db) → Grows id db (update_in w existing kind db).0
  update_in-Grows none db e h = full_refresh-Grows (skip_of w existing db) db e h
  update_in-Grows (some kind) db e h =
      let saved = lookup (progress_key id) db.progress in
      let m = refresh_metadata w existing kind saved db in
      with_metadata-Grows (skip_of w existing db) kind saved m.0 m.1 e
        (refresh_metadata-Grows kind saved db e h)

  update_fetch-Grows : (db : Db) → Grows id db (update_fetch w existing db).0
  unfolding update_fetch
  update_fetch-Grows db = update_in-Grows (cheap_kind w existing) db

module _ (w : Surroundings) (id : Bytes) where
  initial_stored-Grows :
      (s : Series) (incomplete : Bool) (db : Db) (ok : Bool)
      → Grows id db (initial_stored w id s incomplete (db, ok)).0
  initial_stored-Grows s true db true e h = h
  initial_stored-Grows s false db true e h = h
  initial_stored-Grows s incomplete db false e h = h

  initial_of-Grows :
      (got : Fetched) (incomplete : Bool) (db : Db)
      → Grows id db (initial_of w id got incomplete db).0
  initial_of-Grows unavailable incomplete db e h = h
  initial_of-Grows not_found incomplete db e h = h
  initial_of-Grows (found s) incomplete db e h =
      let dated = if incomplete then record s { last_fetched_at = w.now - stale_age } else s in
      let r = write_series w.written dated w.now db in
      initial_stored-Grows dated incomplete r.0 r.1 e
        (write_series-Grows w.written id dated w.now db e h)

  initial_fetch-Grows : (db : Db) → Grows id db (initial_fetch w id db).0
  unfolding initial_fetch
  initial_fetch-Grows db e h =
      let got = w.full id [] none in
      initial_of-Grows got.outcome got.incomplete (told id got.failed got.clips w.now db) e
        (told-Grows id got.failed got.clips w.now db e h)

-- Neither a first fetch nor a refresh, whatever NRK answers and whichever transactions fail, takes
-- an episode of the feed away that is stored.
pub fetches-Grow :
    (w : Surroundings) (existing : Series) (db : Db)
    → Grows existing.id db (initial_fetch w existing.id db).0
      × Grows existing.id db (update_fetch w existing db).0
fetches-Grow w existing db =
    (initial_fetch-Grows w existing.id db, update_fetch-Grows w existing db)
