-- ===== src/Crawl/Run/Page.antt =====
-- One round of a crawl: a page that it goes past is stored whole, without transient failures.
use kringkasting.Base.{
  ℕ, ◌≡◌, refl, ◌∙◌, ◌≢◌, inl, inr, Bool, true, false, ◌&&◌, ◌||◌, Option, none, some, List, [],
  ◌∷◌, arith, ltb, Bool-cases, All, Bytes,
}
use kringkasting.Base.Map.{lookup, is_some, lookup-insert_self, mem}
use kringkasting.Store.{Episode, Db, rows_of}
use kringkasting.Store.Write.{has_series, add_episodes, set_backlog_state, put_episodes}
use kringkasting.Store.Failures.{record_episode_failure}
use kringkasting.Store.Videos.{set_clip_ids}
use kringkasting.Store.Upsert.{ids, insert_episodes-ids}
use kringkasting.Store.Archive.{archive_accumulates}
use kringkasting.Store.History.{Write, apply, replay, Spares, clips_write}
use kringkasting.Crawl.Run.{
  EpisodePage, Round, completed, stop, continue, Result, record_failures, advance, after_episodes,
  store_page, with_page,
}

-- The episode is among the stored ones of the feed.
abbrev pub has_episode : Bytes → Db → Bytes → Bool
has_episode feed_id db e = is_some (lookup e (rows_of feed_id db.episode_table))

-- The second database has every episode of the first.
abbrev pub Grows : Bytes → Db → Db → Type 0
Grows feed_id a b = (e : Bytes) → has_episode feed_id a e ≡ true → has_episode feed_id b e ≡ true

is_some-some {ℓ} : {A : Type ℓ} (o : Option A) → is_some o ≡ true → (a : A) × (o ≡ some a)
unfolding is_some
is_some-some none h = cc
is_some-some (some a) h = (a, refl)

pub replay-Grows :
    (feed_id : Bytes) (ws : List Write) (db : Db)
    → All (Spares feed_id) ws
    → Grows feed_id db (replay db ws)
replay-Grows feed_id ws db sp e h =
    let (old, found) = is_some-some (lookup e (rows_of feed_id db.episode_table)) h in
    let (new, there, _) = archive_accumulates feed_id e old ws db found sp in
    unfold is_some in rw there

-- Every episode of the page is stored.
abbrev pub Holds : Bytes → Db → EpisodePage → Type 0
Holds feed_id db page =
    (e : Bytes) → mem e (ids page.episodes) ≡ true → has_episode feed_id db e ≡ true

-- The stored episodes after a write of some, of the feed itself.
put_episodes-has_episode :
    (feed_id : Bytes) (es : List Episode) (db : Db) (e : Bytes)
    → has_episode feed_id (put_episodes feed_id es db) e
      ≡ (mem e (ids es) || has_episode feed_id db e)
unfolding put_episodes
put_episodes-has_episode feed_id es db e =
    rw lookup-insert_self (insert_episodes-ids es e (rows_of feed_id db.episode_table))

pub store_page-has_episode :
    (ok : Bool) (feed_id : Bytes) (es : List Episode) (db : Db)
    → (store_page ok feed_id es db).1 ≡ true
    → (e : Bytes)
    → has_episode feed_id (store_page ok feed_id es db).0 e
      ≡ (mem e (ids es) || has_episode feed_id db e)
unfolding store_page
store_page-has_episode ok feed_id [] db h e = unfold mem ids in refl
store_page-has_episode ok feed_id (x ∷ es) db h e =
    elim (Bool-cases (ok && has_series feed_id db)) [
      | inl y ↦ unfold add_episodes in rw y (put_episodes-has_episode feed_id (x ∷ es) db e)
      | inr n ↦ unfold add_episodes in absurd (ground arith)
    ]

pub store_page-refused :
    (ok : Bool) (feed_id : Bytes) (es : List Episode) (db : Db)
    → (store_page ok feed_id es db).1 ≡ false
    → (store_page ok feed_id es db).0 ≡ db
unfolding store_page add_episodes
store_page-refused ok feed_id [] db h = refl
store_page-refused ok feed_id (e ∷ es) db h = ground arith

pub record_failures-episodes :
    (feed_id : Bytes) (es : List Bytes) (now : ℕ) (db : Db)
    → (record_failures feed_id es now db).episode_table ≡ db.episode_table
unfolding record_failures record_episode_failure
record_failures-episodes feed_id [] now db = refl
record_failures-episodes feed_id (e ∷ es) now db =
    record_failures-episodes feed_id es now (record_episode_failure true feed_id e now db)

-- What a round that goes past its page has done with it.
pub record IsPassed (feed_id : Bytes) (page : EpisodePage) (r : Result) : Type 0 where
  pub holds : Holds feed_id r.db page
  pub clean : page.transient_failures ≡ 0

-- What a round leaves of the database, and of the page that it goes past.
pub record IsSafe (feed_id : Bytes) (page : EpisodePage) (db : Db) (r : Result) : Type 0 where
  pub grows : Grows feed_id db r.db
  pub at_end : r.next ≡ stop completed → IsPassed feed_id page r × (page.next_href ≡ [])
  pub going_on :
      (href : Bytes) → r.next ≡ continue href → IsPassed feed_id page r × (page.next_href ≡ href)

-- A result that stops short of the end of the archive.
stopped-IsSafe :
    (feed_id : Bytes) (page : EpisodePage) (db : Db) (r : Result)
    → Grows feed_id db r.db
    → r.next ≢ stop completed
    → ((href : Bytes) → r.next ≢ continue href)
    → IsSafe feed_id page db r
stopped-IsSafe feed_id page db r g short over = record {
  grows = g;
  at_end = λ e. absurd (short e);
  going_on = λ href e. absurd (over href e);
}

module _ (r : Round) (feed_id cursor : Bytes) (page : EpisodePage) where
  -- `advance` is reached with the page stored and no transient failure.
  advance-IsSafe :
      (href : Bytes) (db : Db)
      → page.next_href ≡ href
      → Holds feed_id db page
      → page.transient_failures ≡ 0
      → IsSafe feed_id page db (advance r feed_id cursor href db)
  unfolding advance
  advance-IsSafe [] db e h clean = record {
    grows = λ x s. unfold set_backlog_state in s;
    at_end = λ n. (record { holds = unfold set_backlog_state in h; clean = clean }, e);
    going_on = λ href n. cc;
  }
  advance-IsSafe (c ∷ href) db e h clean = record {
    grows = λ x s. unfold set_backlog_state in s;
    at_end = λ n. absurd (ground arith);
    going_on =
        λ to n. (record { holds = unfold set_backlog_state in h; clean = clean }, ground arith);
  }

  set_clip_ids-Grows : (db : Db) → Grows feed_id db (set_clip_ids feed_id page.clip_ids db)
  set_clip_ids-Grows db =
      unfold replay apply in
      replay-Grows feed_id (clips_write feed_id page.clip_ids ∷ []) db (tt, tt)

  after_episodes-IsSafe :
      (db : Db)
      → Holds feed_id db page
      → IsSafe feed_id page db (after_episodes r feed_id cursor page db)
  unfolding after_episodes
  after_episodes-IsSafe db h =
      let noted = set_clip_ids feed_id page.clip_ids db in
      let rest =
        advance-IsSafe page.next_href noted refl (λ e m. set_clip_ids-Grows db e (h e m)) in
      elim (Bool-cases (ltb 0 page.transient_failures)) [
        | inl y ↦
            rw y (stopped-IsSafe feed_id page db _ (set_clip_ids-Grows db) (λ e. cc) (λ href e. cc))
        | inr n ↦ rw n (
            let s = rest (ground arith) in
            record {
              grows = λ e m. s.grows e (set_clip_ids-Grows db e m);
              at_end =
                  λ e. let (p, q) = s.at_end e in (record { holds = p.holds; clean = p.clean }, q);
              going_on = λ href e.
                  let (p, q) = s.going_on href e in
                  (record { holds = p.holds; clean = p.clean }, q);
            })
      ]

  pub with_page-IsSafe : (db : Db) → IsSafe feed_id page db (with_page r feed_id cursor page db)
  unfolding with_page
  with_page-IsSafe db = elim (Bool-cases (has_series feed_id db)) [
    | inl there ↦ rw there (elim (Bool-cases (store_page r.committed feed_id page.episodes db).1) [
      | inl ok ↦
          let stored = store_page-has_episode r.committed feed_id page.episodes db ok in
          let db' = (store_page r.committed feed_id page.episodes db).0 in
          let s = after_episodes-IsSafe db' (λ e m. stored e ∙ ground (arith)) in
          rw ok (record {
            grows = λ e m. s.grows e (stored e ∙ ground arith);
            at_end = s.at_end;
            going_on = s.going_on;
          })
      | inr failed ↦ rw failed (
          stopped-IsSafe feed_id page db _
            (λ e m. rw (store_page-refused r.committed feed_id page.episodes db failed) m) (λ e. cc)
            (λ href e. cc))
    ])
    | inr gone ↦ rw gone (stopped-IsSafe feed_id page db _ (λ e m. m) (λ e. cc) (λ href e. cc))
  ]
