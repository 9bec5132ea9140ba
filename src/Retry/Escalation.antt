-- ===== src/Retry/Escalation.antt =====
-- How Defer escalates from one failure to the next, and that SetDeadline does not.
use native.Mathlib.Nat.{pow-suc, add-zero}
use mathlib.Core.Path.{subst}
use kringkasting.Base.{
  ℕ, zero, suc, ◌+◌, ◌-◌, ◌*◌, ◌^◌, ◌≤◌, min, max, ◌≡◌, refl, sym, ◌∙◌, ◌≢◌, inl, inr, Option, none,
  List, [], ◌∷◌, ◌++◌, arith, ltb, Bool-cases, length, Bytes, same_refl,
}
use kringkasting.Base.Map.{lookup, lookup-delete}
use kringkasting.Retry.{
  RetryState, RetryTable, prefix, max_delay, at, delay_for, defer, set_deadline, clear,
  state_or_zero,
}
use kringkasting.Retry.Reads.{at-defer, at-set_deadline, attempts-insert, same-ne}
use kringkasting.Retry.Bounds.{IsBounded, at-le}

-- Failures in a row, each with the deadline that upstream gave, or 0, and its time.
unfoldable pub defer_all : RetryTable → Bytes → List (ℕ × ℕ) → RetryTable
defer_all r key [] = r
defer_all r key ((not_before, now) ∷ failures) = defer_all (defer r key not_before now) key failures

-- Five minutes, doubled for each earlier failure, and at most a day.
pub doubled : ℕ → ℕ
doubled zero = 300000
doubled (suc n) = min max_delay (2 * doubled n)

doubled_lem : (n : ℕ) → doubled n ≡ min max_delay (300000 * 2 ^ n)
unfolding doubled
doubled_lem zero = refl
doubled_lem (suc n) = simp pow-suc (omega (arith, doubled_lem n))

pow_large : (n : ℕ) → 512 ≤ 2 ^ (n + 9)
pow_large zero = omega arith
pow_large (suc n) =
    let e : suc n + 9 ≡ suc (n + 9) = omega arith in rw (e, pow-suc) (omega (arith, pow_large n))

delay_for_capped : (n : ℕ) → delay_for (min (n + 1) 10) ≡ doubled n
unfolding delay_for
delay_for_capped n = elim (Bool-cases (ltb n 10)) [
  | inl h ↦ let e : min (n + 1) 10 - 1 ≡ n = ground arith in rw (e, doubled_lem n)
  | inr h ↦
      let e : n ≡ (n - 9) + 9 = ground arith in
      let f : min (n + 1) 10 - 1 ≡ 9 = ground arith in
      let big : 512 ≤ 2 ^ n = subst (λ k. 512 ≤ 2 ^ k) (sym e) (pow_large (n - 9)) in
      rw (f, doubled_lem n) (omega arith)
]

abbrev attempts_in : Option RetryState → ℕ
attempts_in o = (state_or_zero o).attempts

abbrev pub attempts_of : RetryTable → Bytes → ℕ
attempts_of r key = (state_or_zero (lookup (prefix ++ key) r)).attempts

attempts-defer :
    (r : RetryTable) (key : Bytes) (nb now : ℕ)
    → attempts_of (defer r key nb now) key ≡ min (attempts_of r key + 1) 10
unfolding defer
attempts-defer r key nb now = rw (attempts-insert, same_refl key)

defer_all-at :
    (failures : List (ℕ × ℕ)) (r : RetryTable) (key : Bytes) (n not_before now : ℕ)
    → attempts_of r key ≡ min n 10
    → at (defer_all r key (failures ++ (not_before, now) ∷ [])) key
      ≡ max (now + doubled (n + length failures)) (min not_before (now + max_delay))
unfolding defer_all
defer_all-at [] r key n not_before now h =
    let e : min (attempts_of r key + 1) 10 ≡ min (n + 1) 10 = omega arith in
    rw (at-defer, same_refl key, e, delay_for_capped) (simp add-zero (omega arith))
defer_all-at ((nb, t) ∷ failures) r key n not_before now h =
    let e : n + suc (length failures) ≡ suc n + length failures = omega arith in
    rw e (
      defer_all-at failures (defer r key nb t) key (suc n) not_before now
        (rw attempts-defer (omega arith)))

lookup-clear : (r : RetryTable) (key : Bytes) → lookup (prefix ++ key) (clear r key) ≡ none
unfolding clear
lookup-clear r key = rw (lookup-delete, same_refl (prefix ++ key))

attempts-clear : (r : RetryTable) (key : Bytes) → attempts_of (clear r key) key ≡ 0
attempts-clear r key = ground (arith, lookup-clear r key)

-- The deadline after a number of failures in a row, counted from a Clear of the key and each with or
-- without a deadline from upstream: it is the later of two times, the time of the last failure plus
-- five minutes doubled once for each failure before it, a day at most, and the deadline that
-- upstream gave with the last failure, cut to a day after it.
pub defer_all-clear :
    (r : RetryTable) (key : Bytes) (failures : List (ℕ × ℕ)) (not_before now : ℕ)
    → at (defer_all (clear r key) key (failures ++ (not_before, now) ∷ [])) key
      ≡ max (now + doubled (length failures)) (min not_before (now + max_delay))
defer_all-clear r key failures not_before now =
    let e : 0 + length failures ≡ length failures = omega arith in
    defer_all-at failures (clear r key) key 0 not_before now (rw attempts-clear) ∙ rw e

-- In a table that the operations can reach, SetDeadline leaves the later of the deadline that was
-- pending and the one given, cut to a day from now; it never counts an attempt, so a failure after
-- it waits no longer than one before it would have; and other keys keep their deadlines.
pub set_deadline_keeps_later :
    (r : RetryTable) (key other : Bytes) (deadline now : ℕ)
    → IsBounded now r
    → other ≢ key
    → (at (set_deadline r key deadline now) key ≡ max (at r key) (min deadline (now + max_delay)))
      × (attempts_of (set_deadline r key deadline now) key ≤ attempts_of r key)
      × (at (set_deadline r key deadline now) other ≡ at r other)
set_deadline_keeps_later r key other d now b h = (
  rw at-set_deadline (rw (same_refl key) (ground (arith, at-le r key now b))),
  unfold set_deadline in
      ground (
        arith,
        attempts-insert r key key
            (record { attempts = 0; next_retry_at = min d (now + max_delay) }),
        same_refl key,
      ),
  rw at-set_deadline (rw (same-ne (λ e. h (sym e)))),
)
