-- ===== src/Tests/StatsTests.antt =====
-- internal/stats: an outage of eight requests, and a flush that fails once.
use kringkasting.Base.{
  ℕ, ◌+◌, ◌≤◌, ◌≡◌, refl, true, false, none, List, [], ◌∷◌, length, take, Bytes, codes,
}
use kringkasting.Stats.{new_stats, record_upstream_request, record_health}
use kringkasting.Stats.Alerts.{
  Request, AreSpaced, AreFailures, alerts, alerts-AreSpaced, alert-follows_failures,
}
use kringkasting.Stats.Flush.Events.{
  Event, search_served, flush_begins, flush_ends, Counting, all_of, counted, run_events,
}
use kringkasting.Stats.Flush.Conserved.{flushes-keep_counts}
use kringkasting.Tests.StoreTests.{small}

abbrev one_day : ℕ → Bytes
one_day now = codes "2026-01-02"

abbrev down : ℕ → Request
down at = record { url = codes "/radio/catalog/x"; method = codes "GET"; status = 503; at = at }

abbrev outage : List Request
outage = down 7 ∷ (down 6 ∷ (down 5 ∷ (down 4 ∷ (down 3 ∷ (down 2 ∷ (down 1 ∷ []))))))

alerts-AreSpaced_example : AreSpaced none (alerts one_day (down 8 ∷ outage) new_stats)
alerts-AreSpaced_example = alerts-AreSpaced one_day (down 8 ∷ outage) new_stats

alert-follows_failures_example :
    (8 ≤ length (down 8 ∷ outage)) × AreFailures (take 8 (down 8 ∷ outage))
unfolding record_upstream_request record_health
alert-follows_failures_example = alert-follows_failures one_day (down 8) outage refl

-- A search, a flush that fails while another search comes, and one that succeeds.
abbrev flushed_twice : List (Event × ℕ)
flushed_twice =
    (search_served, 1)
    ∷ ((flush_begins, 2)
        ∷ ((search_served, 3)
            ∷ ((flush_ends false, 4) ∷ ((flush_begins, 5) ∷ ((flush_ends true, 6) ∷ [])))))

abbrev counting : Counting
counting = record { stats = new_stats; in_hand = none; db = small }

flushes-keep_counts_example :
    all_of (codes "2026-01-02") (codes "searches") (run_events one_day flushed_twice counting)
    ≡ all_of (codes "2026-01-02") (codes "searches") counting
      + counted one_day (codes "2026-01-02") (codes "searches") flushed_twice
flushes-keep_counts_example =
    flushes-keep_counts one_day (codes "2026-01-02") (codes "searches") flushed_twice counting
      (tt, tt, tt)
