-- ===== src/Tests/RetryTests.antt =====
-- internal/retry on concrete tables.
use kringkasting.Base.{
  ◌+◌, ◌≤◌, min, max, ◌≡◌, refl, ◌≢◌, ◌⊎◌, true, Option, none, [], ◌∷◌, ◌++◌, arith, Bytes, codes,
  same, differ,
}
use kringkasting.Base.Map.{lookup, insert}
use kringkasting.Base.Ascii.{trim_space, decimal}
use kringkasting.Retry.{at, can, defer, set_deadline, clear, max_delay, delay_for}
use kringkasting.Retry.Bounds.{defer_op, deadline_op, run, IsBounded, run-can_after_day}
use kringkasting.Retry.Escalation.{
  defer_all, doubled, attempts_of, defer_all-clear, set_deadline_keeps_later,
}
use kringkasting.Retry.Header.{Instant, Layout, digits, parse_retry_after, parse_retry_after_bounds}

abbrev key : Bytes
key = codes "GET:a"

abbrev other : Bytes
other = codes "GET:b"

other-key : other ≢ key
unfolding same
other-key = differ other key refl

defer_three : at (defer_all [] key ((0, 1000) ∷ (0, 2000) ∷ (0, 3000) ∷ [])) key ≡ 1203000
unfolding defer_all defer at lookup insert same delay_for
defer_three = refl

run-can_after_day_example :
    can (run [] ((5, defer_op key 0) ∷ (7, deadline_op other 99) ∷ [])) key (9 + max_delay) ≡ true
run-can_after_day_example =
    run-can_after_day ((5, defer_op key 0) ∷ (7, deadline_op other 99) ∷ []) 0 9 key (omega arith)

defer_all-clear_example :
    at (defer_all (clear [] key) key (((9, 1) ∷ (0, 2) ∷ []) ++ (700000, 3) ∷ [])) key
    ≡ max (3 + doubled 2) (min 700000 (3 + max_delay))
defer_all-clear_example = defer_all-clear [] key ((9, 1) ∷ (0, 2) ∷ []) 700000 3

empty-IsBounded : IsBounded 10 []
unfolding lookup
empty-IsBounded = record { within = λ k st e. cc }

set_deadline_keeps_later_example :
    (at (set_deadline [] key 500 10) key ≡ max (at [] key) (min 500 (10 + max_delay)))
    × (attempts_of (set_deadline [] key 500 10) key ≤ attempts_of [] key)
    × (at (set_deadline [] key 500 10) other ≡ at [] other)
set_deadline_keeps_later_example =
    set_deadline_keeps_later [] key other 500 10 empty-IsBounded other-key

abbrev no_http : Bytes → Option Instant
no_http value = none

abbrev no_layout : Layout → Bytes → Option Instant
no_layout l value = none

two_minutes : parse_retry_after no_http no_layout (codes " 120 ") 1000 ≡ 121000
unfolding parse_retry_after digits trim_space decimal same
two_minutes = refl

parse_retry_after_bounds_example :
    (parse_retry_after no_http no_layout (codes "soon") 7 ≡ 0)
    ⊎ ((7 ≤ parse_retry_after no_http no_layout (codes "soon") 7)
        × (parse_retry_after no_http no_layout (codes "soon") 7 ≤ 7 + max_delay))
parse_retry_after_bounds_example = parse_retry_after_bounds no_http no_layout (codes "soon") 7
