-- ===== src/Crawl/Run/Progress.antt =====
-- What a crawl leaves behind its checkpoint is stored, and it ends at the end of the archive.
use mathlib.Core.Path.{subst, subst₂}
use kringkasting.Base.{
  ℕ, zero, suc, ◌+◌, ◌≡◌, refl, sym, ◌⊎◌, inl, inr, true, false, Option, none, some, List, [], ◌∷◌,
  ◌++◌, arith, Bool-cases, All, Bytes,
}
use kringkasting.Base.Map.{lookup, is_some}
use kringkasting.Store.{Db, CatalogKind, rows_of}
use kringkasting.Store.History.{replay, Spares}
use kringkasting.Crawl.Run.{
  EpisodePage, Round, Stop, completed, not_due, Next, stop, continue, Result, record_failures,
  skip_ids, fetched, answered, one_page, crawl_pages, pause, read_error, read_failed, Outcome,
  with_messages,
}
use kringkasting.Crawl.Run.Page.{
  Holds, Grows, IsPassed, with_page-IsSafe, replay-Grows, record_failures-episodes,
}

-- A round that left the result `res` went past the page that it had fetched, to the cursor `href`.
abbrev pub Past : Bytes → Option EpisodePage → Result → Bytes → Type 0
Past feed_id page res href =
    (p : EpisodePage) × (page ≡ some p) × IsPassed feed_id p res × (p.next_href ≡ href)

record RoundIsSafe (feed_id : Bytes) (page : Option EpisodePage) (db : Db) (res : Result)
    : Type 0 where
  grows : Grows feed_id db res.db
  at_end : res.next ≡ stop completed → Past feed_id page res []
  going_on : (href : Bytes) → res.next ≡ continue href → Past feed_id page res href

module _ (r : Round) (feed_id : Bytes) (kind : Option CatalogKind) (cursor : Bytes) (db : Db) where
  abbrev noted : Db
  noted =
      record_failures feed_id (r.get_page feed_id cursor (skip_ids r feed_id db) kind).1 r.now db

  one_page_unread :
      r.ids_read ≡ false
      → one_page r feed_id kind cursor db ≡ pause read_error read_failed feed_id r.now db
  unfolding one_page
  one_page_unread h = ground arith

  one_page_read :
      r.ids_read ≡ true
      → one_page r feed_id kind cursor db
        ≡ answered r feed_id cursor (fetched r feed_id kind cursor db) noted
  unfolding one_page
  one_page_read h = ground arith

  noted-Grows : Grows feed_id db noted
  noted-Grows e h =
      subst (λ t. is_some (lookup e (rows_of feed_id t)) ≡ true)
        (sym (
          record_failures-episodes feed_id
            (r.get_page feed_id cursor (skip_ids r feed_id db) kind).1 r.now db))
        h

  answered-safe :
      (page : Option EpisodePage)
      → All (Spares feed_id) r.meanwhile
      → RoundIsSafe feed_id page db (answered r feed_id cursor page noted)
  answered-safe none sp = record { grows = noted-Grows; at_end = λ e. cc; going_on = λ href e. cc }
  answered-safe (some page) sp =
      let s = with_page-IsSafe r feed_id cursor page (replay noted r.meanwhile) in
      record {
        grows = λ e h. s.grows e (replay-Grows feed_id r.meanwhile noted sp e (noted-Grows e h));
        at_end = λ e. let (p, q) = s.at_end e in (page, refl, p, q);
        going_on = λ href e. let (p, q) = s.going_on href e in (page, refl, p, q);
      }

  one_page-safe :
      All (Spares feed_id) r.meanwhile
      → RoundIsSafe feed_id
          (fetched r feed_id kind cursor db)
          db
          (one_page r feed_id kind cursor db)
  one_page-safe sp = elim (Bool-cases r.ids_read) [
    | inr unread ↦
        subst (RoundIsSafe feed_id (fetched r feed_id kind cursor db) db)
          (sym (one_page_unread unread))
          (record { grows = λ e h. h; at_end = λ e. cc; going_on = λ href e. cc })
    | inl read ↦
        subst (RoundIsSafe feed_id (fetched r feed_id kind cursor db) db) (sym (one_page_read read))
          (answered-safe (fetched r feed_id kind cursor db) sp)
  ]

abbrev one : Option EpisodePage → List EpisodePage
one none = []
one (some page) = page ∷ []

-- The pages passed by a round at which the loop stops.
abbrev passed_at : Stop → Option EpisodePage → List EpisodePage
passed_at completed page = one page
passed_at _ page = []

-- The pages that the loop goes past, in order: those after which it goes on, and the one at which
-- it ends the archive.
unfoldable pub passed :
    ℕ → ℕ → (ℕ → Round) → Bytes → Option CatalogKind → Bytes → Db → List EpisodePage
passed zero i rounds feed_id kind cursor db = []
passed (suc left) i rounds feed_id kind cursor db =
    let page = fetched (rounds i) feed_id kind cursor db in
    let result = one_page (rounds i) feed_id kind cursor db in
    elim result.next [
      | stop why ↦ passed_at why page
      | continue href ↦ one page ++ passed left (i + 1) rounds feed_id kind href result.db
    ]

pub Next-cases :
    (n : Next) → ((why : Stop) × (n ≡ stop why)) ⊎ ((href : Bytes) × (n ≡ continue href))
Next-cases (stop why) = inl (why, refl)
Next-cases (continue href) = inr (href, refl)

-- The last of the pages links to no other.
abbrev pub LastEnds : List EpisodePage → Type 0
LastEnds [] = ⊥
LastEnds (p ∷ []) = p.next_href ≡ []
LastEnds (p ∷ q ∷ ps) = LastEnds (q ∷ ps)

module _ (left i : ℕ) (rounds : ℕ → Round) (feed_id : Bytes) (kind : Option CatalogKind)
    (cursor : Bytes) (db : Db) where
  abbrev here : Result
  here = one_page (rounds i) feed_id kind cursor db

  abbrev here_page : Option EpisodePage
  here_page = fetched (rounds i) feed_id kind cursor db

  pub crawl_stops :
      (why : Stop)
      → here.next ≡ stop why
      → crawl_pages (suc left) i rounds feed_id kind cursor db ≡ (why, here.db, here.messages)
  unfolding crawl_pages
  crawl_stops why h = ground arith

  pub crawl_continues :
      (href : Bytes)
      → here.next ≡ continue href
      → crawl_pages (suc left) i rounds feed_id kind cursor db
        ≡ with_messages here.messages (crawl_pages left (i + 1) rounds feed_id kind href here.db)
  unfolding crawl_pages
  crawl_continues href h = ground arith

  passed_continues :
      (href : Bytes)
      → here.next ≡ continue href
      → passed (suc left) i rounds feed_id kind cursor db
        ≡ one here_page ++ passed left (i + 1) rounds feed_id kind href here.db
  unfolding passed
  passed_continues href h = ground arith

  passed_stops :
      (why : Stop)
      → here.next ≡ stop why
      → passed (suc left) i rounds feed_id kind cursor db ≡ passed_at why here_page
  unfolding passed
  passed_stops why h = ground arith

-- Every page that the loop goes past is stored when it ends, and was without transient failures;
-- and what was stored stays.
pub record CrawlIsSafe (feed_id : Bytes) (pages : List EpisodePage) (db : Db) (out : Outcome)
    : Type 0 where
  pub grows : Grows feed_id db out.1
  pub all_held : All (λ p. Holds feed_id out.1 p × (p.transient_failures ≡ 0)) pages
  pub ends : out.0 ≡ completed → LastEnds pages

module _ (left i : ℕ) (rounds : ℕ → Round) (feed_id : Bytes) (kind : Option CatalogKind)
    (cursor : Bytes) (db : Db) where
  stopped_result :
      (why : Stop) (page : Option EpisodePage) (res : Result)
      → RoundIsSafe feed_id page db res
      → res.next ≡ stop why
      → CrawlIsSafe feed_id (passed_at why page) db (why, res.db, res.messages)
  stopped_result completed page res s e =
      let (p, got, done, end) = s.at_end e in
      subst (λ o. CrawlIsSafe feed_id (one o) db (completed, res.db, res.messages)) (sym got)
        (record { grows = s.grows; all_held = ((done.holds, done.clean), tt); ends = λ _. end })
  stopped_result not_due page res s e = record { grows = s.grows; all_held = tt; ends = λ q. cc }
  stopped_result _ page res s e = record { grows = s.grows; all_held = tt; ends = λ q. cc }

LastEnds-cons : (p : EpisodePage) (ps : List EpisodePage) → LastEnds ps → LastEnds (p ∷ ps)
LastEnds-cons p [] h = absurd h
LastEnds-cons p (q ∷ ps) h = h

CrawlIsSafe-cons :
    (feed_id : Bytes) (page : Option EpisodePage) (href : Bytes) (db : Db) (res : Result)
    (pages : List EpisodePage) (out : Outcome)
    → RoundIsSafe feed_id page db res
    → res.next ≡ continue href
    → CrawlIsSafe feed_id pages res.db out
    → CrawlIsSafe feed_id (one page ++ pages) db (with_messages res.messages out)
CrawlIsSafe-cons feed_id page href db res pages out s e c =
    let (p, got, done, link) = s.going_on href e in
    subst (λ o. CrawlIsSafe feed_id (one o ++ pages) db (with_messages res.messages out)) (sym got)
      (record {
        grows = λ x h. c.grows x (s.grows x h);
        all_held = ((λ x m. c.grows x (done.holds x m), done.clean), c.all_held);
        ends = λ q. LastEnds-cons p pages (c.ends q);
      })

pub crawl_pages-safe :
    (left i : ℕ) (rounds : ℕ → Round) (feed_id : Bytes) (kind : Option CatalogKind) (cursor : Bytes)
    (db : Db)
    → ((j : ℕ) → All (Spares feed_id) (rounds j).meanwhile)
    → CrawlIsSafe feed_id
        (passed left i rounds feed_id kind cursor db)
        db
        (crawl_pages left i rounds feed_id kind cursor db)
crawl_pages-safe zero i rounds feed_id kind cursor db sp =
    unfold crawl_pages passed in record { grows = λ e h. h; all_held = tt; ends = λ e. cc }
crawl_pages-safe (suc left) i rounds feed_id kind cursor db sp =
    let s = one_page-safe (rounds i) feed_id kind cursor db (sp i) in
    let result = one_page (rounds i) feed_id kind cursor db in
    let page = fetched (rounds i) feed_id kind cursor db in
    elim (Next-cases result.next) [
      | inl (why, e) ↦
          subst₂ (λ ps out. CrawlIsSafe feed_id ps db out)
            (sym (passed_stops left i rounds feed_id kind cursor db why e))
            (sym (crawl_stops left i rounds feed_id kind cursor db why e))
            (stopped_result left i rounds feed_id kind cursor db why page result s e)
      | inr (href, e) ↦
          subst₂ (λ ps out. CrawlIsSafe feed_id ps db out)
            (sym (passed_continues left i rounds feed_id kind cursor db href e))
            (sym (crawl_continues left i rounds feed_id kind cursor db href e))
            (CrawlIsSafe-cons feed_id page href db result
              (passed left (i + 1) rounds feed_id kind href result.db)
              (crawl_pages left (i + 1) rounds feed_id kind href result.db) s e
              (crawl_pages-safe left (i + 1) rounds feed_id kind href result.db sp))
    ]
