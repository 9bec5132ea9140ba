-- ===== src/Tests/RefreshTests.antt =====
-- internal/feed/refresh.go: a feed that was fetched a moment ago.
use kringkasting.Base.{ℕ, ◌≤◌, ◌≡◌, refl, ap, ◌∙◌, true, false, Option, none, some, [], arith, same}
use kringkasting.Base.Map.{lookup, insert}
use kringkasting.Retry
use kringkasting.Store.{Series, Db}
use kringkasting.Store.Read.{read_series, read_series_meta}
use kringkasting.Feed.Refresh.{Jitter, serves, decide, meta_is_fresh, backlog_key}
use kringkasting.Feed.Refresh.Fresh.{meta_is_fresh-decide}
use kringkasting.Tests.StoreTests.{feed, small}

-- The crawl of the archive is under backoff.
abbrev waiting : Db
waiting = record small { retry = Retry.defer [] (backlog_key feed) 0 1000 }

abbrev steady : Jitter
steady = record { part = 1; whole = 2 }

fresh_now : meta_is_fresh feed 2000 waiting ≡ true
unfolding meta_is_fresh read_series_meta Retry.can Retry.defer same lookup insert
fresh_now = refl

fetched_before : (s : Series) → read_series feed waiting ≡ some s → s.last_fetched_at ≤ 2000
unfolding read_series lookup same
fetched_before s h = last (read_series feed waiting) refl s h
  where
    last_of : Option Series → ℕ
    last_of none = 0
    last_of (some s) = s.last_fetched_at

    last :
        (o : Option Series)
        → read_series feed waiting ≡ o
        → (s : Series) → o ≡ some s
        → s.last_fetched_at ≤ 2000
    last o e s h =
        let shown : last_of (read_series feed waiting) ≡ s.last_fetched_at = ap last_of (e ∙ h) in
        omega (arith, shown)

meta_is_fresh-decide_example :
    (s : Series) × (read_series feed waiting ≡ some s)
    × (decide feed steady 2000 waiting ≡ serves s)
    × (s.backlog_complete ≡ false → Retry.can waiting.retry (backlog_key feed) 2000 ≡ false)
meta_is_fresh-decide_example =
    meta_is_fresh-decide feed steady 2000 waiting fetched_before fresh_now
