-- ===== src/Retry.antt =====
-- internal/retry/retry.go: durable retry deadlines in the `app_state` table, under "retry:{key}".
-- The table is a map from its keys to the decoded JSON states; times are Unix milliseconds.
pub mod Reads
pub mod Bounds
pub mod Escalation
pub mod Header
use kringkasting.Base.{
  ℕ, ◌+◌, ◌-◌, ◌*◌, ◌^◌, min, max, Bool, ◌&&◌, Option, none, some, ◌++◌, Bytes, codes, ltb, leb,
  if◌then◌else◌,
}
use kringkasting.Base.Map.{Map, lookup, insert, delete}

abbrev pub prefix : Bytes
prefix = codes "retry:"

-- 24 hours
abbrev pub max_delay : ℕ
max_delay = 86400000

-- `state`
pub record RetryState : Type 0 where
  pub attempts : ℕ
  pub next_retry_at : ℕ

abbrev pub RetryTable : Type 0
RetryTable = Map RetryState

-- The zero value that `ReadState` leaves when the key is absent.
abbrev pub state_or_zero : Option RetryState → RetryState
state_or_zero none = record { attempts = 0; next_retry_at = 0 }
state_or_zero (some st) = st

-- `At` after `ReadState`: 0 when it finds nothing
abbrev pub deadline_of : Option RetryState → ℕ
deadline_of none = 0
deadline_of (some st) = st.next_retry_at

unfoldable pub at : RetryTable → Bytes → ℕ
at r key = deadline_of (lookup (prefix ++ key) r)

-- `now` is the reading of the clock
unfoldable pub can : RetryTable → Bytes → ℕ → Bool
unfolding at
can r key now = leb (at r key) now

-- five minutes, shifted left by one less than the attempts, and at most a day
unfoldable pub delay_for : ℕ → ℕ
delay_for attempts = min max_delay (300000 * 2 ^ (attempts - 1))

unfoldable pub defer : RetryTable → Bytes → ℕ → ℕ → RetryTable
unfolding delay_for
defer r key not_before now =
    let previous = state_or_zero (lookup (prefix ++ key) r) in
    let attempts = min (previous.attempts + 1) 10 in
    insert (prefix ++ key)
      (record {
        attempts = attempts;
        next_retry_at = max (now + delay_for attempts) (min not_before (now + max_delay));
      })
      r

unfoldable pub set_deadline : RetryTable → Bytes → ℕ → ℕ → RetryTable
unfolding at
set_deadline r key deadline now =
    let capped = min deadline (now + max_delay) in
    let current = at r key in
    if ltb capped current && leb current (now + max_delay)
    then r
    else insert (prefix ++ key) (record { attempts = 0; next_retry_at = capped }) r

unfoldable pub clear : RetryTable → Bytes → RetryTable
clear r key = delete (prefix ++ key) r
