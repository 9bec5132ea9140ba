-- ===== src/Retry/Header.antt =====
-- `ParseRetryAfter`: a Retry-After header as a deadline. Go's parsers of dates are parameters:
-- `http_parse_time` for http.ParseTime, and `time_parse` for time.Parse with each of the three
-- layouts, with the instant in Unix milliseconds. Header values are ASCII.
use kringkasting.Base.{
  ℕ, ◌+◌, ◌-◌, ◌*◌, ◌/◌, ◌^◌, ◌≤◌, min, max, ◌≡◌, ◌≢◌, ◌⊎◌, Bool, true, false, ◌||◌, Option, none,
  some, List, [], ◌∷◌, arith, ltb, if◌then◌else◌, Bytes, same, same_iff,
}
use kringkasting.Base.Ascii.{is_digit, all_bytes, decimal, trim_space}
use kringkasting.Retry.{max_delay}

-- Unix milliseconds, after or before the epoch.
pub data Instant : Type 0 where
  after_epoch : ℕ → Instant
  before_epoch : ℕ → Instant

-- max(now, t); the clock reads after the epoch
abbrev max_instant : ℕ → Instant → ℕ
max_instant now (after_epoch t) = max now t
max_instant now (before_epoch t) = now

pub data Layout : Type 0 where
  rfc1123 rfc1123z rfc3339 : Layout

-- the error case of strconv.ParseInt(…, 10, 64) on digits
abbrev pub max_int64 : ℕ
max_int64 = 2 ^ 63 - 1

-- `digits.MatchString`: ^\d+$
unfoldable pub digits : Bytes → Bool
unfolding all_bytes is_digit
digits [] = false
digits (c ∷ s) = all_bytes is_digit (c ∷ s)

-- the loop over the layouts stops at the first that parses
first_layout : (Layout → Bytes → Option Instant) → List Layout → Bytes → Option Instant
first_layout time_parse [] value = none
first_layout time_parse (l ∷ ls) value = elim (time_parse l value) [
  | none ↦ first_layout time_parse ls value
  | some t ↦ some t
]

-- A wait in seconds, when the header is digits.
seconds_deadline : ℕ → ℕ → ℕ
seconds_deadline seconds now =
    if ltb max_int64 seconds || ltb (max_delay / 1000) seconds
    then now + max_delay
    else now + seconds * 1000

date_deadline : Option Instant → ℕ → ℕ
date_deadline none now = 0
date_deadline (some t) now = min (max_instant now t) (now + max_delay)

module _ (http_parse_time : Bytes → Option Instant)
    (time_parse : Layout → Bytes → Option Instant) where
  unfoldable pub parse_date : Bytes → Option Instant
  unfolding first_layout
  parse_date value = elim (http_parse_time value) [
    | none ↦ first_layout time_parse (rfc1123 ∷ rfc1123z ∷ rfc3339 ∷ []) (trim_space value)
    | some t ↦ some t
  ]

  unfoldable pub parse_retry_after : Bytes → ℕ → ℕ
  unfolding seconds_deadline date_deadline
  parse_retry_after value now =
      if same value []
      then 0
      else if digits (trim_space value)
      then seconds_deadline (decimal (trim_space value)) now
      else date_deadline (parse_date value) now

  -- Whatever the header holds and whatever the date parsers answer, the deadline is 0, or lies
  -- between now and a day from now.
  pub parse_retry_after_bounds :
      (value : Bytes) (now : ℕ)
      → (parse_retry_after value now ≡ 0)
        ⊎ ((now ≤ parse_retry_after value now) × (parse_retry_after value now ≤ now + max_delay))
  unfolding parse_retry_after
  parse_retry_after_bounds value now = ground arith

  -- A header of digits asks for that many seconds, a day at most, however large the number.
  pub parse_retry_after-digits :
      (value : Bytes) (now : ℕ)
      → value ≢ []
      → digits (trim_space value) ≡ true
      → parse_retry_after value now ≡ now + min (decimal (trim_space value) * 1000) max_delay
  unfolding parse_retry_after
  parse_retry_after-digits value now h d = ground (arith, same_iff value [])
