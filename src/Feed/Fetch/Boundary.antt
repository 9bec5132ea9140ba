-- ===== src/Feed/Fetch/Boundary.antt =====
-- refresh.go: what a refresh that is not over leaves behind, the boundary of its first batch and a
-- deadline.
use kringkasting.Base.{
  take, ℕ, ◌+◌, ◌-◌, min, ◌≡◌, refl, sym, ap, ◌∙◌, inl, inr, Bool, true, false, not, ◌&&◌, Option,
  none, some, List, [], ◌∷◌, ◌++◌, arith, leb, if◌then◌else◌, Bool-cases, Bytes, same_refl,
}
use kringkasting.Base.Map.{lookup, is_some, lookup-insert_self, lookup-delete_self}
use kringkasting.FeedId
use kringkasting.Retry
use kringkasting.Store.Upsert.{ids}
use kringkasting.Retry.{RetryTable}
use kringkasting.Retry.Reads.{at-defer}
use kringkasting.Retry.Bounds.{le-delay_for}
use kringkasting.Store.{Episode, Series, Db, Progress, CatalogKind, or_zero, bump}
use kringkasting.Store.Write.{
  write_series, add_episodes, touch_last_fetched, put_series, put_episodes, has_series,
}
use kringkasting.Store.Videos.{set_clip_ids}
use kringkasting.Store.Failures.{record_episode_failure}
use kringkasting.Crawl.Run.{record_failures, store_page}
use kringkasting.Nrk.{parse_episodes}
use kringkasting.Nrk.NewEpisodes.{NewEpisodes}
use kringkasting.Feed.Refresh.{refresh_key, progress_key}
use kringkasting.Feed.Fetch.{
  Fetched, found, not_found, unavailable, Surroundings, told, full_of, full_stored, full_refresh,
  over, paused, settled, episodes_added, after_walk, walk_of, stop_ids, cursor_of, save_progress,
  delete_progress, refresh_listing, metadata_of, refresh_metadata, cheap_kind, skip_of,
  update_fetch, gives_up, metadata_ttl,
}

defer-waits :
    (r : RetryTable) (key : Bytes) (now : ℕ) → Retry.can (Retry.defer r key 0 now) key now ≡ false
unfolding Retry.can
defer-waits r key now =
    let n = min ((Retry.state_or_zero (lookup (Retry.prefix ++ key) r)).attempts + 1) 10 in
    let own = at-defer r key key 0 now in ground (arith, own, same_refl key, le-delay_for n)

record_failures-progress :
    (id : Bytes) (es : List Bytes) (now : ℕ) (db : Db)
    → (record_failures id es now db).progress ≡ db.progress
unfolding record_failures record_episode_failure
record_failures-progress id [] now db = refl
record_failures-progress id (e ∷ es) now db =
    record_failures-progress id es now (record_episode_failure true id e now db)

told-progress :
    (id : Bytes) (es : List Bytes) (clips : List (Bytes × Bytes)) (now : ℕ) (db : Db)
    → (told id es clips now db).progress ≡ db.progress
unfolding told set_clip_ids
told-progress id es clips now db = record_failures-progress id es now db

write_series-progress :
    (ok : Bool) (s : Series) (now : ℕ) (db : Db)
    → (write_series ok s now db).0.progress ≡ db.progress
unfolding write_series put_series put_episodes bump
write_series-progress true s now db = refl
write_series-progress false s now db = refl

store_page-progress :
    (ok : Bool) (id : Bytes) (es : List Episode) (db : Db)
    → (store_page ok id es db).0.progress ≡ db.progress
unfolding store_page add_episodes put_episodes bump
store_page-progress ok id [] db = refl
store_page-progress ok id (e ∷ es) db = elim (Bool-cases (ok && has_series id db)) [
  | inl y ↦ rw y refl
  | inr n ↦ rw n refl
]

-- A saved progress of the feed has these ids to stop at.
abbrev pub Stops : Bytes → List Bytes → Db → Type 0
Stops id stop db =
    (p : Progress) → lookup (progress_key id) db.progress ≡ some p → p.stop_episode_ids ≡ stop

-- A saved progress has these ids to stop at, and the next refresh waits.
abbrev pub IsResumable : Bytes → List Bytes → ℕ → Db → Type 0
IsResumable id stop now db =
    (p : Progress)
    → lookup (progress_key id) db.progress ≡ some p
    → (p.stop_episode_ids ≡ stop) × (Retry.can db.retry (refresh_key id) now ≡ false)

module _ (w : Surroundings) (existing : Series) (stop : List Bytes) where
  abbrev id : Bytes
  id = existing.id

  gives_up-IsResumable :
      (db : Db) → Stops id stop db → IsResumable id stop w.now (gives_up w existing db).0
  gives_up-IsResumable db h p e = (h p e, defer-waits db.retry (refresh_key id) w.now)

  -- No progress is saved.
  absent-IsResumable :
      (db : Db) → lookup (progress_key id) db.progress ≡ none → IsResumable id stop w.now db
  absent-IsResumable db h p e = cc

  full_stored-progress :
      (incomplete : Bool) (db : Db) (ok : Bool)
      → (full_stored w existing incomplete (db, ok)).0.progress ≡ db.progress
  full_stored-progress true db true = refl
  full_stored-progress false db true = refl
  full_stored-progress incomplete db false = refl

  full_of-progress :
      (got : Fetched) (incomplete : Bool) (db : Db)
      → (full_of w existing got incomplete db).0.progress ≡ db.progress
  full_of-progress unavailable incomplete db = refl
  full_of-progress not_found incomplete db = refl
  full_of-progress (found s) incomplete db =
      let dated =
        if incomplete then record s { last_fetched_at = existing.last_fetched_at } else s in
      let r = write_series w.written dated w.now db in
      full_stored-progress incomplete r.0 r.1 ∙ write_series-progress w.written dated w.now db

  full_refresh-progress :
      (skip : List Bytes) (db : Db) → (full_refresh w existing skip db).0.progress ≡ db.progress
  unfolding full_refresh
  full_refresh-progress skip db =
      let got = w.full id skip existing.catalog_kind in
      full_of-progress got.outcome got.incomplete (told id got.failed got.clips w.now db)
      ∙ told-progress id got.failed got.clips w.now db

  over-IsResumable : (db : Db) → IsResumable id stop w.now (over w existing db).0
  unfolding touch_last_fetched
  over-IsResumable db =
      absent-IsResumable (over w existing db).0 (lookup-delete_self (progress_key id) db.progress)

  paused-IsResumable :
      (href : Bytes) (db : Db) → IsResumable id stop w.now (paused w existing href stop db).0
  paused-IsResumable href db p e = (
    ap (λ o. elim o [ none ↦ stop | some q ↦ q.stop_episode_ids ])
        (sym e ∙ lookup-insert_self (progress_key id) _ db.progress),
    defer-waits db.retry (refresh_key id) w.now,
  )

  settled-IsResumable :
      (saw_all : Bool) (href : Option Bytes) (db : Db)
      → IsResumable id stop w.now (settled w existing saw_all href stop db).0
  settled-IsResumable saw_all none db = over-IsResumable db
  settled-IsResumable true (some href) db = over-IsResumable db
  settled-IsResumable false (some href) db = paused-IsResumable href db

  episodes_added-IsResumable :
      (r : NewEpisodes) (db : Db) (ok : Bool)
      → Stops id stop db
      → IsResumable id stop w.now (episodes_added w existing r stop (db, ok)).0
  episodes_added-IsResumable r db true h = settled-IsResumable r.saw_all_pages r.resume_href db
  episodes_added-IsResumable r db false h = gives_up-IsResumable db h

  after_walk-IsResumable :
      (r : Option NewEpisodes) (skip : List Bytes) (db : Db)
      → Stops id stop db
      → IsResumable id stop w.now (after_walk w existing r skip stop db).0
  after_walk-IsResumable none skip db h = gives_up-IsResumable db h
  after_walk-IsResumable (some r) skip db h = elim (Bool-cases r.is_gone) [
    | inl gone ↦
        let left = delete_progress w existing db in
        rw gone (
          absent-IsResumable (full_refresh w existing skip left).0 (
            ap (lookup (progress_key id)) (full_refresh-progress skip left)
            ∙ lookup-delete_self (progress_key id) db.progress))
    | inr there ↦
        let es = parse_episodes w.parse_date r.episodes in
        let page = store_page w.added id es db in
        rw there (
          episodes_added-IsResumable r page.0 page.1 (λ p e.
            h p (ap (lookup (progress_key id)) (sym (store_page-progress w.added id es db)) ∙ e)))
  ]

module _ (w : Surroundings) (existing : Series) where
  refresh_listing-IsResumable :
      (skip : List Bytes) (kind : CatalogKind) (saved : Option Progress) (db : Db)
      → IsResumable existing.id
          (stop_ids w existing saved)
          w.now
          (refresh_listing w existing skip kind saved db).0
  unfolding refresh_listing
  refresh_listing-IsResumable skip kind saved db =
      let walk = walk_of w existing skip kind saved in
      let stop = stop_ids w existing saved in
      let begun = save_progress w existing (cursor_of w existing kind saved) stop db in
      after_walk-IsResumable w existing stop walk.result skip
        (told existing.id walk.failed walk.clips w.now begun)
        (λ p e.
          ap (λ o. elim o [ none ↦ stop | some q ↦ q.stop_episode_ids ])
            (sym e
              ∙ (ap (lookup (progress_key existing.id))
                    (told-progress existing.id walk.failed walk.clips w.now begun)
                  ∙ lookup-insert_self (progress_key existing.id) _ db.progress)))

  metadata_of-progress :
      (got : Fetched) (db : Db) → (metadata_of w existing got db).0.progress ≡ db.progress
  metadata_of-progress (found s) db =
      write_series-progress w.metadata_written
        (record s { last_fetched_at = existing.last_fetched_at }) w.now db
  metadata_of-progress not_found db = refl
  metadata_of-progress unavailable db = refl

  -- The metadata leaves the progress as it is, and is not fetched when there is one.
  refresh_metadata-progress :
      (kind : CatalogKind) (saved : Option Progress) (db : Db)
      → (refresh_metadata w existing kind saved db).0.progress ≡ db.progress
  unfolding refresh_metadata
  refresh_metadata-progress kind saved db =
      let due =
        not (is_some saved) && leb metadata_ttl (w.now - or_zero existing.metadata_refreshed_at) in
      elim (Bool-cases due) [
        | inl y ↦ rw y (metadata_of-progress (w.metadata existing.id kind) db)
        | inr n ↦ rw n refl
      ]

  -- A metadata fetch that ends the refresh was not made with a progress saved.
  refused-unsaved :
      (kind : CatalogKind) (saved : Option Progress) (db : Db)
      → (refresh_metadata w existing kind saved db).1 ≡ false
      → saved ≡ none
  unfolding refresh_metadata is_some
  refused-unsaved kind none db h = refl
  refused-unsaved kind (some p) db h = cc

  cheap_kind_lem :
      (kind : CatalogKind)
      → existing.is_umbrella ≡ false
      → (FeedId.parse existing.id).season_id ≡ []
      → existing.catalog_kind ≡ some kind
      → cheap_kind w existing ≡ some kind
  cheap_kind_lem kind u s k = rw s (ground (arith, u, k))

  update_fetch-from :
      (kind : CatalogKind) (db : Db)
      → cheap_kind w existing ≡ some kind
      → IsResumable existing.id
          (stop_ids w existing (lookup (progress_key existing.id) db.progress))
          w.now
          (update_fetch w existing db).0
  unfolding update_fetch
  update_fetch-from kind db h =
      let saved = lookup (progress_key existing.id) db.progress in
      let skip = skip_of w existing db in
      let m = refresh_metadata w existing kind saved db in
      rw h (elim (Bool-cases m.1) [
        | inl on ↦ rw on (refresh_listing-IsResumable skip kind saved m.0)
        | inr off ↦ rw off (
            absent-IsResumable w existing (stop_ids w existing saved) (gives_up w existing m.0).0 (
              ap (lookup (progress_key existing.id)) (refresh_metadata-progress kind saved db)
              ∙ refused-unsaved kind saved db off))
      ])

  -- After a refresh of a show that is no umbrella and no season and whose catalog is known, whatever
  -- NRK answers and whichever transactions fail: if a progress of the feed is saved, the next refresh
  -- is under backoff; and the ids at which that progress stops are those of the progress saved
  -- before this refresh, or else, if there was none, of the first fifty episodes of the series as it
  -- was.
  pub update_fetch-IsResumable :
      (kind : CatalogKind) (db : Db)
      → existing.is_umbrella ≡ false
      → (FeedId.parse existing.id).season_id ≡ []
      → existing.catalog_kind ≡ some kind
      → (left : Progress)
      → lookup (progress_key existing.id) (update_fetch w existing db).0.progress ≡ some left
      → (Retry.can (update_fetch w existing db).0.retry (refresh_key existing.id) w.now ≡ false)
        × ((before : Progress)
            → lookup (progress_key existing.id) db.progress ≡ some before
            → left.stop_episode_ids ≡ before.stop_episode_ids)
        × (lookup (progress_key existing.id) db.progress ≡ none
            → left.stop_episode_ids ≡ take 50 (ids existing.episodes))
  update_fetch-IsResumable kind db u s k left h =
      let (stop, waits) = update_fetch-from kind db (cheap_kind_lem kind u s k) left h in
      (
        waits,
        (λ before e. stop ∙ ap (stop_ids w existing) e),
        (λ e. stop ∙ ap (stop_ids w existing) e),
      )
