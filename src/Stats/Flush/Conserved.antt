-- ===== src/Stats/Flush/Conserved.antt =====
-- Nothing counted is lost or counted twice, from the request to the table.
use kringkasting.Base.{
  ℕ, ◌+◌, ◌≡◌, refl, sym, ap, ◌∙◌, inl, inr, Bool, true, false, ◌&&◌, Option, none, some, List, [],
  ◌∷◌, arith, leb, if◌then◌else◌, Bool-cases, Bytes, same,
}
use kringkasting.Base.Map.{Map, lookup}
use kringkasting.Store.{Db}
use kringkasting.Store.Activity.{Batch, add_daily, is_empty, none_of, flush_activity}
use kringkasting.Store.Activity.Daily.{
  counter, IsDaily, counter-add_daily, add_daily-IsDaily, counter-merge_daily, merge_daily-IsDaily,
}
use kringkasting.Stats.{
  Stats, categorize, count_in, count_day, is_error, is_health_failure, is_over,
  health_failure_threshold, record_health, record_upstream_request, record_feed_served,
  record_search_served, record_rate_limited, record_feed_request, day_nrk, day_nrk_errors,
  day_feeds_200, day_feeds_304, day_searches, day_rate_limited,
}
use kringkasting.Stats.Flush.{return_batch, end_flush}
use kringkasting.Stats.Flush.Events.{
  Event, upstream_request, feed_served, search_served, rate_limited, feed_request, flush_begins,
  flush_ends, Counting, begin_flush, close_flush, on_event, run_events, tally, counts, counted,
  all_of, IsSound,
}

record_health-batch : (status now : ℕ) (s : Stats) → (record_health status now s).1.batch ≡ s.batch
unfolding record_health
record_health-batch status now s = elim (Bool-cases (is_health_failure status)) [
  | inl f ↦
      rw f
        (elim (Bool-cases (
          leb health_failure_threshold (s.consecutive_failures + 1)
          && is_over s.last_health_alert_at now)) [ inl a ↦ rw a refl | inr q ↦ rw q refl ])
  | inr h ↦ rw h refl
]

none_of_nil : {V : Type 0} (m : Map V) → none_of m ≡ true → m ≡ []
none_of_nil [] h = refl
none_of_nil (row ∷ m) h = cc

is_empty-daily : (b : Batch) → is_empty b ≡ true → b.daily ≡ []
is_empty-daily b h = none_of_nil b.daily (ground (arith, h))

split :
    (b : Bool) (c m n : ℕ)
    → c + (if b then m else 0) + (if b then n else 0) ≡ c + (if b then m + n else 0)
split true c m n = omega arith
split false c m n = omega arith

single : (b : Bool) (c m : ℕ) → c + (if b then m else 0) ≡ c + (if b then m + 0 else 0)
single true c m = omega arith
single false c m = omega arith

-- What one event does to a counter, and to the shape.
module _ (day_of : ℕ → Bytes) (d k : Bytes) where
  abbrev Adds : Map (Map ℕ) → Map (Map ℕ) → ℕ → ℕ → Type 0
  Adds daily after now n =
      (IsDaily daily → IsDaily after)
      × (counter d k after ≡ counter d k daily + (if same (day_of now) d then n else 0))

  record_upstream_request-daily :
      (url method : Bytes) (status now : ℕ) (s : Stats)
      → (record_upstream_request day_of url method status now s).1.batch.daily ≡ (
          let one = add_daily (day_of now) day_nrk 1 s.batch.daily in
          if is_error status then add_daily (day_of now) day_nrk_errors 1 one else one)
  unfolding record_upstream_request
  record_upstream_request-daily url method status now s =
      let bucketed : Stats = record s {
        upstream = count_in (categorize url method) (is_error status) s.upstream;
      } in
      let counted : Stats = count_day (day_of now) day_nrk bucketed in
      ap (λ b. b.daily)
        (record_health-batch status now
          (if is_error status then count_day (day_of now) day_nrk_errors counted else counted))
      ∙ elim (Bool-cases (is_error status)) [ inl e ↦ rw e refl | inr n ↦ rw n refl ]

  add-Adds :
      (now : ℕ) (key : Bytes) (daily : Map (Map ℕ))
      → Adds daily (add_daily (day_of now) key 1 daily) now (tally k key)
  add-Adds now key daily = (
    add_daily-IsDaily (day_of now) key 1 daily,
    counter-add_daily (day_of now) key d k 1 daily ∙ ground arith,
  )

  upstream-Adds :
      (url method : Bytes) (status now : ℕ) (s : Stats)
      → Adds s.batch.daily
          (record_upstream_request day_of url method status now s).1.batch.daily
          now
          (counts k (upstream_request url method status))
  upstream-Adds url method status now s =
      rw (record_upstream_request-daily url method status now s) (
        let one = add-Adds now day_nrk s.batch.daily in
        let two = add-Adds now day_nrk_errors (add_daily (day_of now) day_nrk 1 s.batch.daily) in
        elim (Bool-cases (is_error status)) [
          | inl e ↦
              rw e ((λ h. two.0 (one.0 h)), two.1 ∙ (rw one.1 (split (same (day_of now) d) _ _ _)))
          | inr n ↦ rw n (one.0, one.1 ∙ single (same (day_of now) d) _ _)
        ])

  served-Adds :
      (not_modified : Bool) (now : ℕ) (s : Stats)
      → Adds s.batch.daily
          (record_feed_served day_of not_modified now s).batch.daily
          now
          (counts k (feed_served not_modified))
  unfolding record_feed_served
  served-Adds true now s = add-Adds now day_feeds_304 s.batch.daily
  served-Adds false now s = add-Adds now day_feeds_200 s.batch.daily

  flush-keeps :
      (committed : Bool) (now : ℕ) (s : Stats) (b : Batch) (db : Db)
      → IsSound (record { stats = s; in_hand = some b; db = db })
      → IsSound (close_flush committed now s (some b) db)
        × (all_of d k (close_flush committed now s (some b) db)
            ≡ all_of d k (record { stats = s; in_hand = some b; db = db }))
  unfolding end_flush flush_activity return_batch
  flush-keeps committed now s b db h = elim (Bool-cases (is_empty b)) [
    | inl e ↦ rw e (
      (h.0, tt, h.2),
      ap (λ m. counter d k s.batch.daily + counter d k m + counter d k db.daily_table)
          (sym (is_empty-daily b e)),
    )
    | inr n ↦ rw n (elim (Bool-cases committed) [
      | inl y ↦ rw y (
        (h.0, tt, merge_daily-IsDaily b.daily db.daily_table h.2),
        ap (λ n. counter d k s.batch.daily + 0 + n)
              (counter-merge_daily d k b.daily db.daily_table h.1)
            ∙ omega arith,
      )
      | inr f ↦ rw f (
        (merge_daily-IsDaily b.daily s.batch.daily h.0, tt, h.2),
        ap (λ n. n + 0 + counter d k db.daily_table)
              (counter-merge_daily d k b.daily s.batch.daily h.1)
            ∙ omega arith,
      )
    ])
  ]

  begin-keeps :
      (s : Stats) (o : Option Batch) (db : Db)
      → IsSound (record { stats = s; in_hand = o; db = db })
      → IsSound (begin_flush s o db)
        × (all_of d k (begin_flush s o db)
            ≡ all_of d k (record { stats = s; in_hand = o; db = db }))
  unfolding lookup
  begin-keeps s none db h = ((tt, h.0, h.2), omega arith)
  begin-keeps s (some b) db h = (h, refl)

  close-keeps :
      (committed : Bool) (now : ℕ) (s : Stats) (o : Option Batch) (db : Db)
      → IsSound (record { stats = s; in_hand = o; db = db })
      → IsSound (close_flush committed now s o db)
        × (all_of d k (close_flush committed now s o db)
            ≡ all_of d k (record { stats = s; in_hand = o; db = db }))
  close-keeps committed now s none db h = (h, refl)
  close-keeps committed now s (some b) db h = flush-keeps committed now s b db h

  -- A record keeps what is taken and stored.
  record-keeps :
      (c : Counting) (t : Stats) (now n : ℕ)
      → Adds c.stats.batch.daily t.batch.daily now n
      → IsSound c
      → IsSound (record c { stats = t })
        × (all_of d k (record c { stats = t })
            ≡ all_of d k c + (if same (day_of now) d then n else 0))
  record-keeps c t now n a h = ((a.0 h.0, h.1, h.2), rw a.1 (omega arith))

  nothing : (now : ℕ) (c : ℕ) → c ≡ c + (if same (day_of now) d then 0 else 0)
  nothing now c = ground arith

  on_event-keeps :
      (e : Event) (now : ℕ) (c : Counting)
      → IsSound c
      → IsSound (on_event day_of e now c)
        × (all_of d k (on_event day_of e now c)
            ≡ all_of d k c + (if same (day_of now) d then counts k e else 0))
  unfolding record_feed_request record_search_served record_rate_limited
  on_event-keeps (upstream_request url method status) now c h =
      record-keeps c (on_event day_of (upstream_request url method status) now c).stats now _
        (upstream-Adds url method status now c.stats) h
  on_event-keeps (feed_served not_modified) now c h =
      record-keeps c (on_event day_of (feed_served not_modified) now c).stats now _
        (served-Adds not_modified now c.stats) h
  on_event-keeps search_served now c h =
      record-keeps c (on_event day_of search_served now c).stats now _
        (add-Adds now day_searches c.stats.batch.daily) h
  on_event-keeps rate_limited now c h =
      record-keeps c (on_event day_of rate_limited now c).stats now _
        (add-Adds now day_rate_limited c.stats.batch.daily) h
  on_event-keeps (feed_request feed client count) now c h =
      record-keeps c (on_event day_of (feed_request feed client count) now c).stats now 0
        ((λ i. i), nothing now _) h
  on_event-keeps flush_begins now c h =
      let (sound, eq) = begin-keeps c.stats c.in_hand c.db h in (sound, eq ∙ nothing now _)
  on_event-keeps (flush_ends committed) now c h =
      let (sound, eq) = close-keeps committed now c.stats c.in_hand c.db h in
      (sound, eq ∙ nothing now _)

module _ (day_of : ℕ → Bytes) (d k : Bytes) where
  -- In every history of requests and flushes, a day's counter in memory, in the batch that a flush
  -- has in hand and in the table add up to what they were plus what the history counted, whether the
  -- writes commit or fail. No day and no key stands twice at the start.
  pub flushes-keep_counts :
      (es : List (Event × ℕ)) (c : Counting)
      → IsSound c
      → all_of d k (run_events day_of es c) ≡ all_of d k c + counted day_of d k es
  flushes-keep_counts [] c h = omega arith
  flushes-keep_counts ((e, now) ∷ es) c h =
      let (sound, eq) = on_event-keeps day_of d k e now c h in
      flushes-keep_counts es (on_event day_of e now c) sound ∙ rw eq (omega arith)
