-- ===== src/Store/Failures.antt =====
-- queries.go: `RecordEpisodeFailure` and `ReadBlockedEpisodeIDs`, the backoff of single episodes.
pub mod Backoff
use kringkasting.Base.{
  ℕ, ◌+◌, ◌-◌, ◌*◌, ◌^◌, min, Bool, true, Option, none, some, List, [], ◌∷◌, ltb, if◌then◌else◌,
  Bytes,
}
use kringkasting.Base.Map.{lookup, insert, keys_where}
use kringkasting.Store.{FailedRow, Db, rows_of}

abbrev pub day_ms : ℕ
day_ms = 86400000

abbrev pub attempts_of : Option FailedRow → ℕ
attempts_of none = 0
attempts_of (some row) = row.attempts

-- 1 day, 2, 4, …, capped at 30
unfoldable pub delay_days : ℕ → ℕ
delay_days attempts = min 30 (2 ^ min (attempts - 1) 30)

abbrev pub failed_row : ℕ → ℕ → FailedRow
failed_row attempts now = record {
  attempts = attempts;
  next_retry_at = now + delay_days attempts * day_ms;
}

unfoldable pub record_episode_failure : Bool → Bytes → Bytes → ℕ → Db → Db
unfolding delay_days
record_episode_failure committed series_id episode_id now db =
    let rows = rows_of series_id db.failed_table in
    let attempts = attempts_of (lookup episode_id rows) + 1 in
    if committed
    then record db {
      failed_table =
          insert series_id (insert episode_id (failed_row attempts now) rows) db.failed_table;
    }
    else db

unfoldable pub read_blocked_episode_ids : Bytes → ℕ → Db → List Bytes
read_blocked_episode_ids series_id now db =
    keys_where (λ row. ltb now row.next_retry_at) (rows_of series_id db.failed_table)

-- Failures of one episode in a row, at the given times.
unfoldable pub fail_all : Bytes → Bytes → List ℕ → Db → Db
fail_all series_id episode_id [] db = db
fail_all series_id episode_id (now ∷ times) db =
    fail_all series_id episode_id times (record_episode_failure true series_id episode_id now db)
