-- ===== src/Store/Activity/Daily.antt =====
-- The counters by day and key, in the table `daily_stats` and in the memory of the statistics: adding
-- to one, and adding up two such maps.
use mathlib.Core.Path.{subst}
use kringkasting.Base.{
  ℕ, ◌+◌, ◌≡◌, refl, inl, inr, true, false, ◌&&◌, Option, none, some, [], ◌∷◌, arith, if◌then◌else◌,
  Bool-cases, Bytes, same, same_iff, same_refl,
}
use kringkasting.Base.Map.{
  Map, lookup, insert, is_some, lookup-insert, lookup-insert_self, Distinct, insert-Distinct,
}
use kringkasting.Store.{rows_of, rows_or_empty, or_zero}
use kringkasting.Store.Activity.{add_daily, merge_day, merge_daily}

-- The value of a counter, 0 where it is not there.
abbrev pub counter : Bytes → Bytes → Map (Map ℕ) → ℕ
counter day key daily = or_zero (lookup key (rows_of day daily))

-- A map: no day stands twice, and no key of a day.
abbrev pub IsDaily : Map (Map ℕ) → Type 0
IsDaily [] = Unit
IsDaily ((day, counters) ∷ daily) =
    (is_some (lookup day daily) ≡ false) × Distinct counters × IsDaily daily

rows-Distinct : (day : Bytes) (daily : Map (Map ℕ)) → IsDaily daily → Distinct (rows_of day daily)
unfolding lookup
rows-Distinct day [] d = tt
rows-Distinct day ((j, counters) ∷ daily) d = elim (Bool-cases (same j day)) [
  | inl s ↦ rw s d.1
  | inr n ↦ rw n (rows-Distinct day daily d.2)
]

insert-IsDaily :
    (day : Bytes) (counters : Map ℕ) (daily : Map (Map ℕ))
    → Distinct counters
    → IsDaily daily
    → IsDaily (insert day counters daily)
unfolding insert lookup is_some
insert-IsDaily day counters [] c d = (refl, c, tt)
insert-IsDaily day counters ((j, other) ∷ daily) c d = elim (Bool-cases (same j day)) [
  | inl s ↦ rw s (subst (λ i. is_some (lookup i daily) ≡ false) ((same_iff j day).0 s) d.0, c, d.2)
  | inr n ↦ rw n (
    ground (arith, lookup-insert day j counters daily, same_iff j day, same_iff day j, d.0),
    d.1,
    insert-IsDaily day counters daily c d.2,
  )
]

pub add_daily-IsDaily :
    (day key : Bytes) (n : ℕ) (daily : Map (Map ℕ))
    → IsDaily daily
    → IsDaily (add_daily day key n daily)
unfolding add_daily
add_daily-IsDaily day key n daily d =
    insert-IsDaily day _ daily
      (insert-Distinct key _ (rows_of day daily) (rows-Distinct day daily d)) d

own-add_daily :
    (day key k : Bytes) (n : ℕ) (daily : Map (Map ℕ))
    → counter day k (add_daily day key n daily)
      ≡ counter day k daily + (if same day day && same key k then n else 0)
unfolding add_daily
own-add_daily day key k n daily =
    rw
      (lookup-insert_self day
        (insert key (or_zero (lookup key (rows_of day daily)) + n) (rows_of day daily)) daily)
      (rw (lookup-insert key k (or_zero (lookup key (rows_of day daily)) + n) (rows_of day daily)) (
        rw (same_refl day) (elim (Bool-cases (same key k)) [
          | inl s ↦ rw s (rw ((same_iff key k).0 s) refl)
          | inr e ↦ rw e (omega arith)
        ])))

-- One counter grows, the others stay.
pub counter-add_daily :
    (day key d k : Bytes) (n : ℕ) (daily : Map (Map ℕ))
    → counter d k (add_daily day key n daily)
      ≡ counter d k daily + (if same day d && same key k then n else 0)
unfolding add_daily
counter-add_daily day key d k n daily = elim (Bool-cases (same day d)) [
  | inl s ↦
      subst
        (λ e.
          counter e k (add_daily day key n daily)
          ≡ counter e k daily + (if same day e && same key k then n else 0))
        ((same_iff day d).0 s) (own-add_daily day key k n daily)
  | inr e ↦ rw e (rw (lookup-insert day d _ daily) (rw e (omega arith)))
]

merge_day-IsDaily :
    (day : Bytes) (counters : Map ℕ) (daily : Map (Map ℕ))
    → IsDaily daily
    → IsDaily (merge_day day counters daily)
unfolding merge_day
merge_day-IsDaily day [] daily d = d
merge_day-IsDaily day ((key, n) ∷ counters) daily d =
    merge_day-IsDaily day counters (add_daily day key n daily) (add_daily-IsDaily day key n daily d)

pub merge_daily-IsDaily :
    (more daily : Map (Map ℕ)) → IsDaily daily → IsDaily (merge_daily more daily)
unfolding merge_daily
merge_daily-IsDaily [] daily d = d
merge_daily-IsDaily ((day, counters) ∷ more) daily d =
    merge_daily-IsDaily more (merge_day day counters daily) (merge_day-IsDaily day counters daily d)

none-zero : (o : Option ℕ) → is_some o ≡ false → or_zero o ≡ 0
unfolding is_some
none-zero none h = refl
none-zero (some n) h = cc

absent-zero :
    (key k : Bytes) (counters : Map ℕ)
    → is_some (lookup key counters) ≡ false
    → same key k ≡ true
    → or_zero (lookup k counters) ≡ 0
absent-zero key k counters a s =
    subst (λ i. or_zero (lookup i counters) ≡ 0) ((same_iff key k).0 s) (none-zero _ a)

none-counter :
    (k : Bytes) (o : Option (Map ℕ)) → is_some o ≡ false → or_zero (lookup k (rows_or_empty o)) ≡ 0
unfolding is_some lookup
none-counter k none h = refl
none-counter k (some n) h = cc

absent-counter :
    (day d k : Bytes) (daily : Map (Map ℕ))
    → is_some (lookup day daily) ≡ false
    → same day d ≡ true
    → counter d k daily ≡ 0
absent-counter day d k daily a s =
    subst (λ e. counter e k daily ≡ 0) ((same_iff day d).0 s) (none-counter k _ a)

counter-merge_day :
    (day d k : Bytes) (counters : Map ℕ) (daily : Map (Map ℕ))
    → Distinct counters
    → counter d k (merge_day day counters daily)
      ≡ counter d k daily + (if same day d then or_zero (lookup k counters) else 0)
unfolding merge_day lookup is_some
counter-merge_day day d k [] daily c = ground arith
counter-merge_day day d k ((key, n) ∷ counters) daily c =
    rw (counter-merge_day day d k counters (add_daily day key n daily) c.1)
      (rw (counter-add_daily day key d k n daily) ground (arith, absent-zero key k counters c.0))

-- Merging adds every counter.
pub counter-merge_daily :
    (d k : Bytes) (more daily : Map (Map ℕ))
    → IsDaily more
    → counter d k (merge_daily more daily) ≡ counter d k daily + counter d k more
unfolding merge_daily lookup is_some
counter-merge_daily d k [] daily m = omega arith
counter-merge_daily d k ((day, counters) ∷ more) daily m =
    rw (counter-merge_daily d k more (merge_day day counters daily) m.2) (
      rw (counter-merge_day day d k counters daily m.1) (elim (Bool-cases (same day d)) [
        | inl s ↦ rw s (rw (absent-counter day d k more m.0 s) (omega arith))
        | inr e ↦ rw e (omega arith)
      ]))
