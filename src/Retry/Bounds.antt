-- ===== src/Retry/Bounds.antt =====
-- No history of operations blocks a key for more than a day, or counts past ten attempts.
use native.Mathlib.Nat.{pow-suc}
use kringkasting.Base.{
  ℕ, zero, suc, ◌+◌, ◌-◌, ◌^◌, ◌≤◌, ◌<◌, min, ◌≡◌, sym, ◌≢◌, inl, inr, true, false, some, List, [],
  ◌∷◌, ◌++◌, arith, le→leb, Option-cases, Bytes, same_refl,
}
use kringkasting.Base.Map.{lookup, lookup-insert, lookup-delete}
use kringkasting.Retry.{
  RetryState, RetryTable, prefix, max_delay, at, can, delay_for, defer, set_deadline, clear,
  state_or_zero,
}
use kringkasting.Retry.Reads.{at-defer, same-ne}

pow_pos : (n : ℕ) → 1 ≤ 2 ^ n
pow_pos zero = omega arith
pow_pos (suc n) = simp pow-suc (omega (arith, pow_pos n))

pub data Op : Type 0 where
  defer_op : Bytes → ℕ → Op
  deadline_op : Bytes → ℕ → Op
  clear_op : Bytes → Op

unfoldable pub step : RetryTable → ℕ → Op → RetryTable
step r now (defer_op key not_before) = defer r key not_before now
step r now (deadline_op key deadline) = set_deadline r key deadline now
step r now (clear_op key) = clear r key

-- Operations with the times at which they are made.
unfoldable pub run : RetryTable → List (ℕ × Op) → RetryTable
run r [] = r
run r ((now, op) ∷ ops) = run (step r now op) ops

-- The times do not run backwards, and end by `last`.
abbrev pub Until : ℕ → ℕ → List (ℕ × Op) → Type 0
Until now last [] = now ≤ last
Until now last ((t, op) ∷ ops) = (now ≤ t) × Until t last ops

pub record IsBounded (now : ℕ) (r : RetryTable) : Type 0 where
  pub within :
      (key : Bytes) (st : RetryState)
      → lookup key r ≡ some st
      → (st.attempts ≤ 10) × (st.next_retry_at ≤ now + max_delay)

pub le-delay_for : (n : ℕ) → 300000 ≤ delay_for n
unfolding delay_for
le-delay_for n = omega (arith, pow_pos (n - 1))

pub delay_for-le : (n : ℕ) → delay_for n ≤ max_delay
unfolding delay_for
delay_for-le n = omega arith

IsBounded-later : {r : RetryTable} (now t : ℕ) → now ≤ t → IsBounded now r → IsBounded t r
IsBounded-later now t h b = record { within = λ key st e. omega (arith, b.within key st e) }

set_deadline-within :
    (r : RetryTable) (k key : Bytes) (d now : ℕ) (st : RetryState)
    → IsBounded now r
    → lookup key (set_deadline r k d now) ≡ some st
    → (st.attempts ≤ 10) × (st.next_retry_at ≤ now + max_delay)
unfolding set_deadline
set_deadline-within r k key d now st b = ground (
  arith,
  b.within key st,
  lookup-insert (prefix ++ k) key (record { attempts = 0; next_retry_at = min d (now + max_delay) })
      r,
)

step-IsBounded :
    (r : RetryTable) (now : ℕ) (op : Op) → IsBounded now r → IsBounded now (step r now op)
unfolding step
step-IsBounded r now (defer_op k nb) b = record {
  within = λ key st. unfold defer delay_for in rw lookup-insert (ground (arith, b.within key st));
}
step-IsBounded r now (deadline_op k d) b = record {
  within = λ key st. set_deadline-within r k key d now st b;
}
step-IsBounded r now (clear_op k) b = record {
  within = λ key st. unfold clear in rw lookup-delete (ground (arith, b.within key st));
}

run-IsBounded :
    (r : RetryTable) (now last : ℕ) (ops : List (ℕ × Op))
    → IsBounded now r
    → Until now last ops
    → IsBounded last (run r ops)
unfolding run
run-IsBounded r now last [] b h = IsBounded-later now last h b
run-IsBounded r now last ((t, op) ∷ ops) b h =
    run-IsBounded (step r t op) t last ops (step-IsBounded r t op (IsBounded-later now t h.0 b)) h.1

IsBounded-empty : (now : ℕ) → IsBounded now []
unfolding lookup
IsBounded-empty now = record { within = λ key st e. cc }

pub at-le : (r : RetryTable) (key : Bytes) (now : ℕ) → IsBounded now r → at r key ≤ now + max_delay
unfolding at
at-le r key now b = elim (Option-cases (lookup (prefix ++ key) r)) [
  | inl e ↦ rw e (omega arith)
  | inr (st, e) ↦ rw e (b.within (prefix ++ key) st e).1
]

-- After any sequence of Defer, SetDeadline and Clear on any keys, with any upstream deadlines,
-- made from an empty table at times that do not run backwards and end by `last`, every key may be
-- tried again a day after `last`.
pub run-can_after_day :
    (ops : List (ℕ × Op)) (now last : ℕ) (key : Bytes)
    → Until now last ops
    → can (run [] ops) key (last + max_delay) ≡ true
unfolding can
run-can_after_day ops now last key h =
    le→leb _ _ (at-le _ key last (run-IsBounded [] now last ops (IsBounded-empty now) h))

-- After Defer at `now` the key is blocked until five minutes have passed, and until the upstream
-- deadline has, or a day if that is sooner; a day later it is free; and every other key may be
-- tried exactly when it could before.
pub can-defer :
    (r : RetryTable) (key other : Bytes) (not_before now t : ℕ)
    → other ≢ key
    → (t < now + 300000 → can (defer r key not_before now) key t ≡ false)
      × (t < min not_before (now + max_delay) → can (defer r key not_before now) key t ≡ false)
      × (now + max_delay ≤ t → can (defer r key not_before now) key t ≡ true)
      × (can (defer r key not_before now) other t ≡ can r other t)
unfolding can
can-defer r key other nb now t h =
    let n = min ((state_or_zero (lookup (prefix ++ key) r)).attempts + 1) 10 in
    let own = at-defer r key key nb now in
    let low : 300000 ≤ delay_for n = le-delay_for n in
    (
      (λ b. ground (arith, own, same_refl key, low)),
      (λ b. ground (arith, own, same_refl key)),
      (λ b. ground (arith, own, same_refl key, delay_for-le n)),
      rw at-defer (rw (same-ne (λ e. h (sym e)))),
    )
