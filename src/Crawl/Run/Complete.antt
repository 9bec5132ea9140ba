-- ===== src/Crawl/Run/Complete.antt =====
-- A crawl loses no episode and marks an archive as complete only at its end: the theorem on a whole
-- crawl.
use mathlib.Core.Path.{subst}
use kringkasting.Base.{
  ℕ, zero, suc, ◌+◌, ◌≡◌, refl, sym, ap, ◌∙◌, ◌≢◌, ◌⊎◌, inl, inr, Bool, true, false, Option, none,
  some, List, [], ◌∷◌, arith, ltb, Bool-cases, All, Bytes,
}
use kringkasting.Base.Map.{lookup, is_some}
use kringkasting.Store.{Episode, Db, CatalogKind}
use kringkasting.Store.Write.{has_series}
use kringkasting.Store.Failures.{record_episode_failure}
use kringkasting.Store.Videos.{set_clip_ids}
use kringkasting.Store.History.{replay}
use kringkasting.Crawl.Run.{
  EpisodePage, Round, completed, stop, Result, record_failures, advance, after_episodes, store_page,
  with_page, checkpoint, answered, one_page, fetched, skip_ids, crawl_pages, Outcome,
}
use kringkasting.Store.History.{Spares}
use kringkasting.Crawl.Run.Page.{Grows, Holds}
use kringkasting.Crawl.Run.Mark.{
  is_marked, MarksNot, NotMarked, replay-NotMarked, set_backlog_state-marked, same_series-NotMarked,
  add_episodes-series,
}
use kringkasting.Crawl.Run.Progress.{
  passed, LastEnds, Next-cases, crawl_stops, crawl_continues, crawl_pages-safe,
}

record_failures-series :
    (feed_id : Bytes) (es : List Bytes) (now : ℕ) (db : Db)
    → (record_failures feed_id es now db).series_table ≡ db.series_table
unfolding record_failures record_episode_failure
record_failures-series feed_id [] now db = refl
record_failures-series feed_id (e ∷ es) now db =
    record_failures-series feed_id es now (record_episode_failure true feed_id e now db)

store_page-series :
    (ok : Bool) (feed_id : Bytes) (es : List Episode) (db : Db)
    → (store_page ok feed_id es db).0.series_table ≡ db.series_table
unfolding store_page
store_page-series ok feed_id [] db = refl
store_page-series ok feed_id (e ∷ es) db = add_episodes-series ok feed_id (e ∷ es) db

-- What a round makes of the mark: it is new exactly at the end of the archive.
record IsHonest (feed_id : Bytes) (db : Db) (r : Result) : Type 0 where
  only : is_marked feed_id r.db ≡ true → (is_marked feed_id db ≡ true) ⊎ (r.next ≡ stop completed)
  at_end : r.next ≡ stop completed → is_marked feed_id r.db ≡ true

-- A result that stops short of the end.
stopped-IsHonest :
    (feed_id : Bytes) (db : Db) (r : Result)
    → NotMarked feed_id db r.db
    → r.next ≢ stop completed
    → IsHonest feed_id db r
stopped-IsHonest feed_id db r kept short = record {
  only = λ h. inl (kept h);
  at_end = λ e. absurd (short e);
}

advance-IsHonest :
    (r : Round) (feed_id cursor href : Bytes) (db : Db)
    → has_series feed_id db ≡ true
    → IsHonest feed_id db (advance r feed_id cursor href db)
unfolding advance
advance-IsHonest r feed_id cursor [] db h = record {
  only = λ m. inr refl;
  at_end = λ e. set_backlog_state-marked feed_id none true db h;
}
advance-IsHonest r feed_id cursor (c ∷ href) db h =
    stopped-IsHonest feed_id db (advance r feed_id cursor (c ∷ href) db)
      (λ m.
        absurd (ground (arith, m, set_backlog_state-marked feed_id (checkpoint cursor) false db h)))
      (λ e. absurd (ground (arith, e)))

after_episodes-IsHonest :
    (r : Round) (feed_id cursor : Bytes) (page : EpisodePage) (db : Db)
    → has_series feed_id db ≡ true
    → IsHonest feed_id db (after_episodes r feed_id cursor page db)
unfolding after_episodes set_clip_ids has_series
after_episodes-IsHonest r feed_id cursor page db h =
    elim (Bool-cases (ltb 0 page.transient_failures)) [
      | inl y ↦ rw y (stopped-IsHonest feed_id db _ (λ m. m) (λ e. cc))
      | inr n ↦ rw n (
          let s =
            advance-IsHonest r feed_id cursor page.next_href (set_clip_ids feed_id page.clip_ids db)
              h in
          record { only = s.only; at_end = s.at_end })
    ]

with_page-IsHonest :
    (r : Round) (feed_id cursor : Bytes) (page : EpisodePage) (db : Db)
    → IsHonest feed_id db (with_page r feed_id cursor page db)
unfolding with_page
with_page-IsHonest r feed_id cursor page db = elim (Bool-cases (has_series feed_id db)) [
  | inr gone ↦ rw gone (stopped-IsHonest feed_id db _ (λ m. m) (λ e. cc))
  | inl there ↦
      let stored = store_page r.committed feed_id page.episodes db in
      let same = store_page-series r.committed feed_id page.episodes db in
      rw there (elim (Bool-cases stored.1) [
        | inr failed ↦ rw failed (
            stopped-IsHonest feed_id db _ (same_series-NotMarked feed_id db stored.0 same)
              (λ e. cc))
        | inl ok ↦ rw ok (
            let s =
              after_episodes-IsHonest r feed_id cursor page stored.0
                (unfold has_series in ap (λ t. is_some (lookup feed_id t)) same ∙ there) in
            record {
              only = λ m. elim (s.only m) [
                | inl old ↦ inl (same_series-NotMarked feed_id db stored.0 same old)
                | inr e ↦ inr e
              ];
              at_end = s.at_end;
            })
      ])
]

one_page-IsHonest :
    (r : Round) (feed_id : Bytes) (kind : Option CatalogKind) (cursor : Bytes) (db : Db)
    → All (MarksNot feed_id) r.meanwhile
    → IsHonest feed_id db (one_page r feed_id kind cursor db)
unfolding one_page
one_page-IsHonest r feed_id kind cursor db m = elim (Bool-cases r.ids_read) [
  | inr unread ↦ rw unread (stopped-IsHonest feed_id db _ (λ h. h) (λ e. cc))
  | inl read ↦ rw read (of_page (fetched r feed_id kind cursor db))
]
  where
    noted : Db
    noted =
        record_failures feed_id (r.get_page feed_id cursor (skip_ids r feed_id db) kind).1 r.now db

    noted-NotMarked : NotMarked feed_id db noted
    noted-NotMarked = same_series-NotMarked feed_id db noted (
        record_failures-series feed_id (r.get_page feed_id cursor (skip_ids r feed_id db) kind).1
          r.now db)

    of_page : (o : Option EpisodePage) → IsHonest feed_id db (answered r feed_id cursor o noted)
    of_page none = stopped-IsHonest feed_id db _ noted-NotMarked (λ e. cc)
    of_page (some page) =
        let s = with_page-IsHonest r feed_id cursor page (replay noted r.meanwhile) in
        record {
          only = λ h. elim (s.only h) [
            | inl old ↦ inl (noted-NotMarked (replay-NotMarked feed_id r.meanwhile noted m old))
            | inr e ↦ inr e
          ];
          at_end = s.at_end;
        }

-- What a crawl makes of the mark.
record IsHonestAtEnd (feed_id : Bytes) (db : Db) (out : Outcome) : Type 0 where
  only : is_marked feed_id out.1 ≡ true → (is_marked feed_id db ≡ true) ⊎ (out.0 ≡ completed)
  at_end : out.0 ≡ completed → is_marked feed_id out.1 ≡ true

crawl_pages-IsHonest :
    (left i : ℕ) (rounds : ℕ → Round) (feed_id : Bytes) (kind : Option CatalogKind) (cursor : Bytes)
    (db : Db)
    → ((j : ℕ) → All (MarksNot feed_id) (rounds j).meanwhile)
    → IsHonestAtEnd feed_id db (crawl_pages left i rounds feed_id kind cursor db)
crawl_pages-IsHonest zero i rounds feed_id kind cursor db m =
    unfold crawl_pages in record { only = λ h. inl h; at_end = λ e. cc }
crawl_pages-IsHonest (suc left) i rounds feed_id kind cursor db m =
    let result = one_page (rounds i) feed_id kind cursor db in
    let s = one_page-IsHonest (rounds i) feed_id kind cursor db (m i) in
    elim (Next-cases result.next) [
      | inl (why, e) ↦
          subst (IsHonestAtEnd feed_id db)
            (sym (crawl_stops left i rounds feed_id kind cursor db why e))
            (record {
              only = λ h. elim (s.only h) [
                | inl old ↦ inl old
                | inr done ↦ inr (ground (arith, e, done))
              ];
              at_end = λ done. s.at_end (e ∙ ap stop done);
            })
      | inr (href, e) ↦
          let later = crawl_pages-IsHonest left (i + 1) rounds feed_id kind href result.db m in
          subst (IsHonestAtEnd feed_id db)
            (sym (crawl_continues left i rounds feed_id kind cursor db href e))
            (record {
              only = λ h. elim (later.only h) [
                | inl old ↦ elim (s.only old) [
                  | inl older ↦ inl older
                  | inr done ↦ absurd (ground (arith, e, done))
                ]
                | inr done ↦ inr done
              ];
              at_end = later.at_end;
            })
    ]

-- Whatever NRK answers and whichever writes fail, if in the rounds of a crawl no one else deletes
-- the feed or marks its archive as complete: every episode stored before it is stored after it; of
-- every page that it goes past, all episodes are stored when it ends and no lookup failed
-- transiently; the archive is stored as complete only if it was so before, or the last of these
-- pages links to no other; and when the crawl reports the archive as complete, it is stored so.
pub crawl_pages_keep :
    (left i : ℕ) (rounds : ℕ → Round) (feed_id : Bytes) (kind : Option CatalogKind) (cursor : Bytes)
    (db : Db)
    → ((j : ℕ) → All (Spares feed_id) (rounds j).meanwhile)
    → ((j : ℕ) → All (MarksNot feed_id) (rounds j).meanwhile)
    → let out = crawl_pages left i rounds feed_id kind cursor db in
      let pages = passed left i rounds feed_id kind cursor db in
      Grows feed_id db out.1
      × All (λ p. Holds feed_id out.1 p × (p.transient_failures ≡ 0)) pages
      × (is_marked feed_id out.1 ≡ true → (is_marked feed_id db ≡ true) ⊎ LastEnds pages)
      × (out.0 ≡ completed → (is_marked feed_id out.1 ≡ true) × LastEnds pages)
crawl_pages_keep left i rounds feed_id kind cursor db sp m =
    let s = crawl_pages-safe left i rounds feed_id kind cursor db sp in
    let honest = crawl_pages-IsHonest left i rounds feed_id kind cursor db m in
    (
      s.grows,
      s.all_held,
      (λ h. elim (honest.only h) [ inl old ↦ inl old | inr done ↦ inr (s.ends done) ]),
      (λ done. (honest.at_end done, s.ends done)),
    )
