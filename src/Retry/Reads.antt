-- ===== src/Retry/Reads.antt =====
-- What the deadline of one key is after an operation on another.
use kringkasting.Base.{
  ℕ, ◌+◌, min, max, ◌≡◌, ap, ◌≢◌, inl, inr, false, ◌&&◌, ◌++◌, arith, ltb, leb, if◌then◌else◌,
  Bool-cases, Bytes, same, same_iff, append_cancel_left,
}
use kringkasting.Base.Map.{lookup, insert, lookup-insert, lookup-delete}
use kringkasting.Retry.{
  RetryState, RetryTable, prefix, max_delay, at, delay_for, defer, set_deadline, clear,
  state_or_zero,
}

module _ (r : RetryTable) (key k : Bytes) where
  pub at-insert :
      (st : RetryState)
      → at (insert (prefix ++ key) st r) k ≡ (if same key k then st.next_retry_at else at r k)
  unfolding at
  at-insert st =
      rw (lookup-insert, append_cancel_left)
        (elim (Bool-cases (same key k)) [ inl e ↦ rw e | inr e ↦ rw e ])

  pub at-clear : at (clear r key) k ≡ (if same key k then 0 else at r k)
  unfolding at clear
  at-clear =
      rw (lookup-delete, append_cancel_left)
        (elim (Bool-cases (same key k)) [ inl e ↦ rw e | inr e ↦ rw e ])

  -- The attempts that the state of a key counts so far.
  pub attempts-insert :
      (st : RetryState)
      → (state_or_zero (lookup (prefix ++ k) (insert (prefix ++ key) st r))).attempts
        ≡ (if same key k then st.attempts else (state_or_zero (lookup (prefix ++ k) r)).attempts)
  attempts-insert st =
      rw (lookup-insert, append_cancel_left)
        (elim (Bool-cases (same key k)) [ inl e ↦ rw e | inr e ↦ rw e ])

  pub at-defer :
      (nb now : ℕ)
      → at (defer r key nb now) k ≡ (
          if same key k
          then max
              (now + delay_for (min ((state_or_zero (lookup (prefix ++ key) r)).attempts + 1) 10))
              (min nb (now + max_delay))
          else at r k)
  at-defer nb now = unfold defer in at-insert _

  pub at-set_deadline :
      (d now : ℕ)
      → at (set_deadline r key d now) k ≡ (
          if same key k
          then (if ltb (min d (now + max_delay)) (at r key) && leb (at r key) (now + max_delay)
              then at r key
              else min d (now + max_delay))
          else at r k)
  unfolding set_deadline
  at-set_deadline d now = ground (
    arith,
    at-insert (record { attempts = 0; next_retry_at = min d (now + max_delay) }),
    same_iff key k,
    ap (at r) {x = key} {y = k},
  )

pub same-ne : {s t : Bytes} → s ≢ t → same s t ≡ false
same-ne {s} {t} h = ground (arith, same_iff s t)
