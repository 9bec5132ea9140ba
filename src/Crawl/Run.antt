-- ===== src/Crawl/Run.antt =====
-- `crawl`: one crawl of a feed, page by page. What a round meets outside the crawler is a `Round`:
-- NRK's answer as `GetEpisodePage` returns it, with the ids that it reported as failed, the outcomes
-- of the two database calls that can fail, the writes that others make between the page and the
-- check of `HasSeries`, the clock, and whether the process is shut down at the pause. The delays are
-- not modelled otherwise, nor are the log lines.
pub mod Page
pub mod Mark
pub mod Complete
pub mod Progress
use kringkasting.Base.{
  ℕ, zero, suc, ◌+◌, Bool, true, false, not, ◌||◌, Option, none, some, List, [], ◌∷◌, ◌++◌, ltb,
  if◌then◌else◌, Bytes, codes,
}
use kringkasting.Retry
use kringkasting.Store.{Episode, Db, CatalogKind}
use kringkasting.Store.Write.{has_series, add_episodes, set_backlog_state}
use kringkasting.Store.Read.{read_series, read_episode_ids}
use kringkasting.Store.Failures.{record_episode_failure, read_blocked_episode_ids}
use kringkasting.Store.Videos.{set_clip_ids}
use kringkasting.Store.History.{Write, replay}

abbrev pub max_pages_per_run : ℕ
max_pages_per_run = 200

-- five minutes
abbrev pub page_limit_pause : ℕ
page_limit_pause = 300000

-- `EpisodePage` of internal/nrk; the clip references as pairs of ids
pub record EpisodePage : Type 0 where
  pub episodes : List Episode
  pub next_href : Bytes
  pub transient_failures : ℕ
  pub clip_ids : List (Bytes × Bytes)

pub record Round : Type 0 where
  -- the page for a feed, a cursor, the ids to skip and the catalog; with the ids that failed
  pub get_page : Bytes → Bytes → List Bytes → Option CatalogKind → Option EpisodePage × List Bytes
  pub ids_read : Bool
  pub committed : Bool
  pub meanwhile : List Write
  pub now : ℕ
  pub shut_down : Bool

-- The messages of `recordEvent`, without the feed that each begins with, and among them the calls of
-- `AfterPage`.
pub data Message : Type 0 where
  after_page : Message
  started resumed unavailable read_failed write_failed complete_message : Message
  transient : ℕ → Message

-- Where a crawl ended.
pub data Stop : Type 0 where
  not_due read_error no_page series_gone write_error transient_failures completed cancelled
        page_limit :
      Stop

pub data Next : Type 0 where
  stop : Stop → Next
  continue : Bytes → Next

-- What a round leaves: where the crawl goes on, the database and the messages.
pub record Result : Type 0 where
  pub next : Next
  pub db : Db
  pub messages : List Message

abbrev pub retry_key : Bytes → Bytes
retry_key feed_id = codes "backlog:" ++ feed_id

abbrev pub backlog_defer : Bytes → ℕ → Db → Db
backlog_defer feed_id now db = record db { retry = Retry.defer db.retry (retry_key feed_id) 0 now }

-- `pause`
abbrev pub pause : Stop → Message → Bytes → ℕ → Db → Result
pause why message feed_id now db = record {
  next = stop why;
  db = backlog_defer feed_id now db;
  messages = message ∷ [];
}

-- the callback that `GetEpisodePage` is given
unfoldable pub record_failures : Bytes → List Bytes → ℕ → Db → Db
record_failures feed_id [] now db = db
record_failures feed_id (e ∷ es) now db =
    record_failures feed_id es now (record_episode_failure true feed_id e now db)

abbrev pub checkpoint : Bytes → Option Bytes
checkpoint [] = none
checkpoint (c ∷ cursor) = some (c ∷ cursor)

unfoldable pub is_empty {ℓ} : {A : Type ℓ} → List A → Bool
is_empty [] = true
is_empty (x ∷ xs) = false

-- The end of a round whose page is stored: the end of the archive, or the next page.
unfoldable pub advance : Round → Bytes → Bytes → Bytes → Db → Result
advance r feed_id cursor [] db = record {
  next = stop completed;
  db =
      let saved = set_backlog_state feed_id none true db in
      record saved { retry = Retry.clear saved.retry (retry_key feed_id) };
  messages = complete_message ∷ [];
}
advance r feed_id cursor (c ∷ href) db = record {
  next = if r.shut_down then stop cancelled else continue (c ∷ href);
  db = set_backlog_state feed_id (checkpoint cursor) false db;
  messages = [];
}

-- The rest of a round after `AddEpisodes`.
unfoldable pub after_episodes : Round → Bytes → Bytes → EpisodePage → Db → Result
unfolding advance
after_episodes r feed_id cursor page db =
    let noted = set_clip_ids feed_id page.clip_ids db in
    let rest =
      if ltb 0 page.transient_failures
      then pause transient_failures (transient page.transient_failures) feed_id r.now noted
      else advance r feed_id cursor page.next_href noted in
    record rest {
      messages = if is_empty page.episodes then rest.messages else after_page ∷ rest.messages;
    }

-- A page without episodes is not written.
unfoldable pub store_page : Bool → Bytes → List Episode → Db → Db × Bool
store_page committed feed_id [] db = (db, true)
store_page committed feed_id (e ∷ es) db = add_episodes committed feed_id (e ∷ es) db

unfoldable pub with_page : Round → Bytes → Bytes → EpisodePage → Db → Result
unfolding store_page after_episodes
with_page r feed_id cursor page db =
    if not (has_series feed_id db)
    then record { next = stop series_gone; db = db; messages = [] }
    else let (db', stored) = store_page r.committed feed_id page.episodes db in
      if stored
      then after_episodes r feed_id cursor page db'
      else pause write_error write_failed feed_id r.now db'

-- The ids that a round need not resolve: those stored, and those under backoff.
abbrev pub skip_ids : Round → Bytes → Db → List Bytes
skip_ids r feed_id db = read_episode_ids feed_id db ++ read_blocked_episode_ids feed_id r.now db

unfoldable pub fetched : Round → Bytes → Option CatalogKind → Bytes → Db → Option EpisodePage
fetched r feed_id kind cursor db = (r.get_page feed_id cursor (skip_ids r feed_id db) kind).0

abbrev pub answered : Round → Bytes → Bytes → Option EpisodePage → Db → Result
answered r feed_id cursor none db = pause no_page unavailable feed_id r.now db
answered r feed_id cursor (some page) db = with_page r feed_id cursor page (replay db r.meanwhile)

-- The body of the loop.
unfoldable pub one_page : Round → Bytes → Option CatalogKind → Bytes → Db → Result
unfolding record_failures with_page fetched
one_page r feed_id kind cursor db =
    let failed = (r.get_page feed_id cursor (skip_ids r feed_id db) kind).1 in
    if r.ids_read
    then answered r feed_id cursor (fetched r feed_id kind cursor db)
        (record_failures feed_id failed r.now db)
    else pause read_error read_failed feed_id r.now db

abbrev pub Outcome : Type 0
Outcome = Stop × Db × List Message

abbrev pub with_messages : List Message → Outcome → Outcome
with_messages ms (why, db, more) = (why, db, ms ++ more)

-- The loop, over the rounds that are left; the round number picks what each round meets.
unfoldable pub crawl_pages : ℕ → ℕ → (ℕ → Round) → Bytes → Option CatalogKind → Bytes → Db → Outcome
unfolding one_page
crawl_pages zero i rounds feed_id kind cursor db =
    let now = (rounds i).now in
    (
      page_limit,
      record db {
        retry = Retry.set_deadline db.retry (retry_key feed_id) (now + page_limit_pause) now;
      },
      [],
    )
crawl_pages (suc left) i rounds feed_id kind cursor db =
    let result = one_page (rounds i) feed_id kind cursor db in
    elim result.next [
      | stop why ↦ (why, result.db, result.messages)
      | continue href ↦
          with_messages result.messages
            (crawl_pages left (i + 1) rounds feed_id kind href result.db)
    ]

abbrev cursor_or_empty : Option Bytes → Bytes
cursor_or_empty none = []
cursor_or_empty (some cursor) = cursor

abbrev begun : Option Bytes → Message
begun none = started
begun (some cursor) = resumed

-- `crawl`; `readable` is whether `ReadSeries` succeeds
unfoldable pub crawl : Bool → (ℕ → Round) → Bytes → Db → Outcome
unfolding crawl_pages
crawl readable rounds feed_id db = elim (if readable then read_series feed_id db else none) [
  | none ↦ (not_due, db, [])
  | some series ↦
      if series.backlog_complete || not (Retry.can db.retry (retry_key feed_id) (rounds 0).now)
      then (not_due, db, [])
      else with_messages (begun series.backlog_cursor ∷ []) (
          crawl_pages max_pages_per_run 0 rounds feed_id series.catalog_kind
            (cursor_or_empty series.backlog_cursor) db)
]
