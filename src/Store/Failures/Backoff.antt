-- ===== src/Store/Failures/Backoff.antt =====
-- How long a failing episode is left alone.
use native.Mathlib.Nat.{pow-suc}
use mathlib.Core.Path.{subst}
use kringkasting.Base.{
  ℕ, zero, suc, ◌+◌, ◌-◌, ◌*◌, ◌^◌, ◌≤◌, min, ◌≡◌, refl, sym, ap, ◌∙◌, inl, inr, true, Option, none,
  some, List, [], ◌∷◌, ◌++◌, arith, ltb, leb, Bool-cases, length, Bytes,
}
use kringkasting.Base.Map.{
  lookup, lookup-insert_self, mem, Distinct, insert-Distinct, passes, mem-keys_where,
}
use kringkasting.Store.{FailedRow, Db, rows_of}
use kringkasting.Store.Failures.{
  day_ms, attempts_of, delay_days, failed_row, record_episode_failure, read_blocked_episode_ids,
  fail_all,
}

-- One day, doubled for each earlier failure, and at most thirty.
unfoldable pub doubled_days : ℕ → ℕ
doubled_days zero = 1
doubled_days (suc n) = min 30 (2 * doubled_days n)

doubled_days_lem : (n : ℕ) → doubled_days n ≡ min 30 (2 ^ n)
unfolding doubled_days
doubled_days_lem zero = refl
doubled_days_lem (suc n) = simp pow-suc (omega (arith, doubled_days_lem n))

pow_large : (n : ℕ) → 32 ≤ 2 ^ (n + 5)
pow_large zero = omega arith
pow_large (suc n) =
    let e : suc n + 5 ≡ suc (n + 5) = omega arith in rw (e, pow-suc) (omega (arith, pow_large n))

pow_big : (n : ℕ) → 5 ≤ n → 32 ≤ 2 ^ n
pow_big n h =
    let e : n ≡ (n - 5) + 5 = omega arith in subst (λ k. 32 ≤ 2 ^ k) (sym e) (pow_large (n - 5))

-- The cap of the shift at thirty changes nothing.
delay_days-doubled : (n : ℕ) → delay_days (n + 1) ≡ doubled_days n
unfolding delay_days
delay_days-doubled n = elim (Bool-cases (leb n 30)) [
  | inl h ↦ let e : min (n + 1 - 1) 30 ≡ n = ground arith in rw (e, doubled_days_lem n)
  | inr h ↦
      let e : min (n + 1 - 1) 30 ≡ 30 = ground arith in
      rw (e, doubled_days_lem n) (omega (arith, pow_big n (ground arith)))
]

module _ (series_id episode_id : Bytes) where
  abbrev row_of : Db → Option FailedRow
  row_of db = lookup episode_id (rows_of series_id db.failed_table)

  row_of-record :
      (now : ℕ) (db : Db)
      → row_of (record_episode_failure true series_id episode_id now db)
        ≡ some (failed_row (attempts_of (row_of db) + 1) now)
  unfolding record_episode_failure
  row_of-record now db = rw lookup-insert_self (lookup-insert_self _ _ _)

  Distinct-record :
      (now : ℕ) (db : Db)
      → Distinct (rows_of series_id db.failed_table)
      → Distinct
          (rows_of series_id (record_episode_failure true series_id episode_id now db).failed_table)
  unfolding record_episode_failure
  Distinct-record now db d = rw lookup-insert_self (insert-Distinct _ _ _ d)

  fail_all-row :
      (times : List ℕ) (now : ℕ) (db : Db)
      → row_of (fail_all series_id episode_id (times ++ now ∷ []) db)
        ≡ some (failed_row (attempts_of (row_of db) + length times + 1) now)
  unfolding fail_all
  fail_all-row [] now db =
      let e : attempts_of (row_of db) + 0 + 1 ≡ attempts_of (row_of db) + 1 = omega arith in
      rw e (row_of-record now db)
  fail_all-row (t ∷ times) now db =
      let after = record_episode_failure true series_id episode_id t db in
      let e : attempts_of (row_of after) ≡ attempts_of (row_of db) + 1 =
        ap attempts_of (row_of-record t db) in
      let f : attempts_of (row_of after) + length times + 1
          ≡ attempts_of (row_of db) + suc (length times) + 1 =
        omega arith in
      fail_all-row times now after ∙ ap (λ n. some (failed_row n now)) f

  fail_all-Distinct :
      (times : List ℕ) (db : Db)
      → Distinct (rows_of series_id db.failed_table)
      → Distinct (rows_of series_id (fail_all series_id episode_id times db).failed_table)
  unfolding fail_all
  fail_all-Distinct [] db d = d
  fail_all-Distinct (t ∷ times) db d = fail_all-Distinct times _ (Distinct-record t db d)

  -- An episode that never failed before is, after failures at the given times of which the last is
  -- `now`, blocked at a time exactly if that is before `now` plus one day doubled for each earlier
  -- failure, thirty days at most.
  pub fail_all-blocked :
      (times : List ℕ) (now t : ℕ) (db : Db)
      → Distinct (rows_of series_id db.failed_table)
      → row_of db ≡ none
      → mem episode_id (
          read_blocked_episode_ids series_id t
            (fail_all series_id episode_id (times ++ now ∷ []) db))
        ≡ ltb t (now + doubled_days (length times) * day_ms)
  unfolding read_blocked_episode_ids
  fail_all-blocked times now t db d new =
      mem-keys_where (λ row. ltb t row.next_retry_at) episode_id _
        (fail_all-Distinct (times ++ now ∷ []) db d)
      ∙ ap (passes (λ row. ltb t row.next_retry_at)) (fail_all-row times now db)
      ∙ unfold passes in
        rw new
          (ap (λ n. ltb t (now + n * day_ms)) (ap delay_days e ∙ delay_days-doubled (length times)))
    where
      e : 0 + length times + 1 ≡ length times + 1
      e = omega arith
