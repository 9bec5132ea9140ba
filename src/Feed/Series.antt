-- ===== src/Feed/Series.antt =====
-- internal/feed/refresh.go: `Feeds`, the fetch of a feed with what it starts (`fetchSeries`), and the
-- sections under the mutex of `GetSeries`: the ids that NRK did not know, and the calls in flight. A
-- request runs `begin`; one that leads runs `fetch_series` and then `finish`; one that led or joined
-- runs `answer` with the outcome of the call. A panic of a fetch is an outcome that failed.
pub mod Missing
use kringkasting.Base.{
  ℕ, ◌+◌, ◌*◌, Bool, not, Option, none, some, List, [], ◌∷◌, ltb, leb, if◌then◌else◌, length, Bytes,
}
use kringkasting.Base.Map.{Map, lookup, insert, delete, mem, remove}
use kringkasting.Store.{Series, Db}
use kringkasting.Feed.Refresh.{Jitter, Decision, waits, serves, fetches, updates, decide}
use kringkasting.Feed.Fetch.{
  Surroundings, Initial, fetched, missing, err_upstream, initial_fetch, update_fetch,
}

-- ten minutes
abbrev pub not_found_ttl : ℕ
not_found_ttl = 600000

abbrev pub max_not_found : ℕ
max_not_found = 500

-- A series, none, or an error
pub data Outcome : Type 0 where
  known : Series → Outcome
  unknown failed : Outcome

-- What a fetch leaves, and the feeds that it hands to the crawler and to the video worker.
pub record FetchResult : Type 0 where
  pub db : Db
  pub outcome : Outcome
  pub crawls : List Bytes
  pub videos : List Bytes

-- The end of `fetchSeries`; `with_videos` tells whether there is a video worker.
abbrev pub announced : Bool → Db → Series → FetchResult
announced with_videos db s = record {
  db = db;
  outcome = known s;
  crawls = if not s.backlog_complete then s.id ∷ [] else [];
  videos = if with_videos then s.id ∷ [] else [];
}

abbrev pub without_series : Outcome → Db → FetchResult
without_series o db = record { db = db; outcome = o; crawls = []; videos = [] }

abbrev pub after_initial : Bool → Db × Initial → FetchResult
after_initial with_videos (db, fetched s) = announced with_videos db s
after_initial with_videos (db, missing) = without_series unknown db
after_initial with_videos (db, err_upstream) = without_series failed db

module _ (w : Surroundings) (with_videos : Bool) (id : Bytes) where
  abbrev pub carried_out : Decision → Db → FetchResult
  carried_out waits db = without_series failed db
  carried_out (serves s) db = announced with_videos db s
  carried_out fetches db = after_initial with_videos (initial_fetch w id db)
  carried_out (updates s) db = let (db', s') = update_fetch w s db in announced with_videos db' s'

  -- `fetchSeries`
  unfoldable pub fetch_series : Jitter → Db → FetchResult
  unfolding decide initial_fetch update_fetch
  fetch_series jitter db = carried_out (decide id jitter w.now db) db

-- The fields under the mutex.
pub record Feeds : Type 0 where
  pub not_found_until : Map ℕ
  pub in_flight : List Bytes

pub data Begun : Type 0 where
  known_missing joins leads : Begun

abbrev pub join_or_lead : Bytes → Feeds → Begun × Feeds
join_or_lead id f =
    if mem id f.in_flight then (joins, f) else (leads, record f { in_flight = id ∷ f.in_flight })

abbrev pub begin_at : Option ℕ → Bytes → ℕ → Feeds → Begun × Feeds
begin_at none id now f = join_or_lead id f
begin_at (some until) id now f =
    if ltb now until
    then (known_missing, f)
    else join_or_lead id (record f { not_found_until = delete id f.not_found_until })

unfoldable pub begin : Bytes → ℕ → Feeds → Begun × Feeds
begin id now f = begin_at (lookup id f.not_found_until) id now f

unfoldable pub finish : Bytes → Feeds → Feeds
finish id f = record f { in_flight = remove id f.in_flight }

unfoldable pub unexpired : ℕ → Map ℕ → Map ℕ
unexpired now [] = []
unexpired now ((k, until) ∷ m) =
    let rest = unexpired now m in if ltb now until then (k, until) ∷ rest else rest

abbrev pub with_room : ℕ → Map ℕ → Map ℕ
with_room now m = if leb max_not_found (length m) then unexpired now m else m

-- The end of `GetSeries`.
unfoldable pub answer : Bytes → Outcome → ℕ → Feeds → Feeds
unfolding unexpired
answer id (known s) now f = f
answer id failed now f = f
answer id unknown now f = record f {
  not_found_until = insert id (now + not_found_ttl) (with_room now f.not_found_until);
}
