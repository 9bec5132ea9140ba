-- ===== src/Store/Read/Order.antt =====
-- The episodes that `ReadSeries` returns: which, in what order, and the date that `ReadSeriesMeta`
-- reads without them.
use mathlib.Core.Path.{subst}
use kringkasting.Base.{
  ℕ, ◌≤◌, max, ◌≡◌, refl, inl, inr, ◌||◌, Option, none, some, List, [], ◌∷◌, arith, ltb, Bool-cases,
  All, Bytes, same,
}
use kringkasting.Base.Map.{Map, lookup, is_some, mem}
use kringkasting.Store.{Episode, EpisodeRow, Series, Db, rows_of}
use kringkasting.Store.Upsert.{ids}
use kringkasting.Store.Read.{
  insert_by_date, newest_first, newest_date, read_series, read_series_meta,
}

-- No episode is older than one behind it.
abbrev pub IsNewestFirst : List Episode → Type 0
IsNewestFirst [] = Unit
IsNewestFirst (e ∷ es) = All (λ f. f.date ≤ e.date) es × IsNewestFirst es

insert_by_date-All :
    (bound : ℕ) (e : Episode) (es : List Episode)
    → e.date ≤ bound
    → All (λ f. f.date ≤ bound) es
    → All (λ f. f.date ≤ bound) (insert_by_date e es)
unfolding insert_by_date
insert_by_date-All bound e [] h hs = (h, tt)
insert_by_date-All bound e (f ∷ fs) h hs = elim (Bool-cases (ltb e.date f.date)) [
  | inl b ↦ rw b (hs.0, insert_by_date-All bound e fs h hs.1)
  | inr b ↦ rw b (h, hs)
]

All-weaken :
    (a b : ℕ) (es : List Episode) → a ≤ b → All (λ f. f.date ≤ a) es → All (λ f. f.date ≤ b) es
All-weaken a b [] h hs = tt
All-weaken a b (e ∷ es) h hs = (omega arith, All-weaken a b es h hs.1)

insert_by_date-IsNewestFirst :
    (e : Episode) (es : List Episode) → IsNewestFirst es → IsNewestFirst (insert_by_date e es)
unfolding insert_by_date
insert_by_date-IsNewestFirst e [] h = (tt, tt)
insert_by_date-IsNewestFirst e (f ∷ fs) h = elim (Bool-cases (ltb e.date f.date)) [
  | inl b ↦
      rw b
        (insert_by_date-All f.date e fs (ground arith) h.0, insert_by_date-IsNewestFirst e fs h.1)
  | inr b ↦
      let le : f.date ≤ e.date = ground arith in rw b ((le, All-weaken f.date e.date fs le h.0), h)
]

newest_first-IsNewestFirst : (rows : Map EpisodeRow) → IsNewestFirst (newest_first rows)
unfolding newest_first
newest_first-IsNewestFirst [] = tt
newest_first-IsNewestFirst ((id, row) ∷ rows) =
    insert_by_date-IsNewestFirst (record row.episode { id = id }) (newest_first rows)
      (newest_first-IsNewestFirst rows)

mem-insert_by_date :
    (id : Bytes) (e : Episode) (es : List Episode)
    → mem id (ids (insert_by_date e es)) ≡ (same e.id id || mem id (ids es))
unfolding insert_by_date mem ids
mem-insert_by_date id e [] = refl
mem-insert_by_date id e (f ∷ fs) = ground (arith, mem-insert_by_date id e fs)

mem-newest_first :
    (id : Bytes) (rows : Map EpisodeRow)
    → mem id (ids (newest_first rows)) ≡ is_some (lookup id rows)
unfolding newest_first lookup is_some mem ids
mem-newest_first id [] = refl
mem-newest_first id ((k, row) ∷ rows) = ground (
  arith,
  mem-insert_by_date id (record row.episode { id = k }) (newest_first rows),
  mem-newest_first id rows,
)

abbrev pub first_date : List Episode → Option ℕ
first_date [] = none
first_date (e ∷ es) = some e.date

first_date-insert :
    (e : Episode) (es : List Episode)
    → first_date (insert_by_date e es)
      ≡ elim (first_date es) [ none ↦ some e.date | some d ↦ some (max e.date d) ]
unfolding insert_by_date
first_date-insert e [] = refl
first_date-insert e (f ∷ fs) = ground arith

newest_date-first : (rows : Map EpisodeRow) → newest_date rows ≡ first_date (newest_first rows)
unfolding newest_first newest_date
newest_date-first [] = refl
newest_date-first ((id, row) ∷ rows) = ground (
  arith,
  first_date-insert (record row.episode { id = id }) (newest_first rows),
  newest_date-first rows,
)

episodes-read_series :
    (id : Bytes) (db : Db) (s : Series)
    → read_series id db ≡ some s
    → newest_first (rows_of id db.episode_table) ≡ s.episodes
unfolding read_series
episodes-read_series id db s h = ground arith

-- A stored series reads with its episodes newest first, exactly those that are stored.
pub read_series-episodes :
    (id : Bytes) (db : Db) (s : Series)
    → read_series id db ≡ some s
    → IsNewestFirst s.episodes
      × ((e : Bytes) → mem e (ids s.episodes) ≡ is_some (lookup e (rows_of id db.episode_table)))
read_series-episodes id db s h =
    subst
      (λ es.
        IsNewestFirst es
        × ((e : Bytes) → mem e (ids es) ≡ is_some (lookup e (rows_of id db.episode_table))))
      (episodes-read_series id db s h)
      (newest_first-IsNewestFirst (rows_of id db.episode_table), λ e. mem-newest_first e _)

-- The freshness data of a series, read without its episodes, agrees with the series read whole: it
-- is there exactly if the series is, and has its times, its archive's state, and the date of its
-- newest episode.
pub read_series_meta-read_series :
    (id : Bytes) (db : Db)
    → read_series_meta id db ≡ elim (read_series id db) [
      | none ↦ none
      | some s ↦ some (record {
        id = s.id;
        last_fetched_at = s.last_fetched_at;
        backlog_complete = s.backlog_complete;
        newest_episode_at = first_date s.episodes;
      })
    ]
unfolding read_series read_series_meta
read_series_meta-read_series id db = ground (arith, newest_date-first (rows_of id db.episode_table))
