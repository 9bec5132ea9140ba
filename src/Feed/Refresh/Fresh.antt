-- ===== src/Feed/Refresh/Fresh.antt =====
-- The fast path of a feed against the slow one.
use mathlib.Core.Path.{subst}
use native.Mathlib.Nat.{mul-le-mul_right}
use kringkasting.Base.{
  ℕ, ◌+◌, ◌-◌, ◌*◌, ◌≤◌, ◌≡◌, refl, ap, ◌∙◌, true, false, Option, none, some, List, [], ◌∷◌, arith,
  Bytes,
}
use kringkasting.Retry
use kringkasting.Store.{Episode, Series, Db}
use kringkasting.Store.Read.{read_series, read_series_meta, SeriesMeta}
use kringkasting.Store.Read.Order.{first_date, read_series_meta-read_series}
use kringkasting.Feed.Refresh.{
  hour, newest_of, refresh_interval_hours, backlog_key, meta_fresh, meta_is_fresh, hours_since,
  Jitter, serves, decide_stored, decide,
}

-- An age below 85 percent of the interval is below every jittered interval.
within :
    (i last now part whole : ℕ)
    → last ≤ now
    → (now - last) * 100 ≤ i * (85 * hour)
    → hours_since last now * (100 * whole) ≤ i * (85 * whole + 30 * part)
within i last now part whole h fresh =
    let hours : hours_since last now * 100 ≤ i * 85 = omega (arith, h, fresh) in
    let scaled = mul-le-mul_right whole hours in omega (arith, scaled)

first-newest : (s : Series) → first_date s.episodes ≡ newest_of s.episodes
first-newest s = go s.episodes
  where
    go : (es : List Episode) → first_date es ≡ newest_of es
    go [] = refl
    go (e ∷ es) = refl

abbrev meta_of : Option Series → Option SeriesMeta
meta_of none = none
meta_of (some s) = some (record {
  id = s.id;
  last_fetched_at = s.last_fetched_at;
  backlog_complete = s.backlog_complete;
  newest_episode_at = newest_of s.episodes;
})

abbrev IsPast : ℕ → Option Series → Type 0
IsPast now none = Unit
IsPast now (some s) = s.last_fetched_at ≤ now

fresh-decide :
    (id : Bytes) (jitter : Jitter) (now : ℕ) (db : Db) (o : Option Series)
    → IsPast now o
    → meta_fresh id now db (meta_of o) ≡ true
    → (s : Series) × (o ≡ some s)
      × (decide_stored id jitter now db o ≡ serves s)
      × (s.backlog_complete ≡ false → Retry.can db.retry (backlog_key id) now ≡ false)
fresh-decide id jitter now db none p h = absurd (ground (arith, h))
fresh-decide id jitter now db (some s) p h = (
  s,
  refl,
  ground (
    arith,
    h,
    within (refresh_interval_hours s now) s.last_fetched_at now jitter.part jitter.whole p,
  ),
  λ b. ground (arith, h, b),
)

read_series_meta-of : (id : Bytes) (db : Db) → read_series_meta id db ≡ meta_of (read_series id db)
read_series_meta-of id db = read_series_meta-read_series id db ∙ go (read_series id db)
  where
    go :
        (o : Option Series)
        → elim o [
          | none ↦ none
          | some s ↦ some (record {
            id = s.id;
            last_fetched_at = s.last_fetched_at;
            backlog_complete = s.backlog_complete;
            newest_episode_at = first_date s.episodes;
          })
        ]
          ≡ meta_of o
    go none = refl
    go (some s) =
        ap
          (λ d. some (record {
            id = s.id;
            last_fetched_at = s.last_fetched_at;
            backlog_complete = s.backlog_complete;
            newest_episode_at = d;
          }))
          (first-newest s)

-- When the fast path takes a feed for fresh, and its last fetch is not in the future: the feed is
-- stored, the slow path would at the same time serve what is stored, whatever its jitter, and if its
-- archive is not complete no crawl of it may run yet.
pub meta_is_fresh-decide :
    (id : Bytes) (jitter : Jitter) (now : ℕ) (db : Db)
    → ((s : Series) → read_series id db ≡ some s → s.last_fetched_at ≤ now)
    → meta_is_fresh id now db ≡ true
    → (s : Series) × (read_series id db ≡ some s)
      × (decide id jitter now db ≡ serves s)
      × (s.backlog_complete ≡ false → Retry.can db.retry (backlog_key id) now ≡ false)
unfolding decide meta_is_fresh
meta_is_fresh-decide id jitter now db p h =
    fresh-decide id jitter now db (read_series id db) (past (read_series id db) refl)
      (subst (λ m. meta_fresh id now db m ≡ true) (read_series_meta-of id db) h)
  where
    past : (o : Option Series) → read_series id db ≡ o → IsPast now o
    past none e = tt
    past (some s) e = p s e
