-- ===== src/Web/RateLimit.antt =====
-- internal/web/ratelimit.go: the token buckets. The tokens, floating-point numbers in Go, are counted
-- exactly, in units of which `unit` make a token; a refill is in units per millisecond. Times are
-- milliseconds of the clock, whose readings do not run backwards.
pub mod Budget
pub mod Clients
use kringkasting.Base.{
  ℕ, ◌+◌, ◌-◌, ◌*◌, min, Bool, true, false, not, Option, none, some, [], ◌∷◌, ◌++◌, ltb, leb,
  if◌then◌else◌, length, Bytes, codes,
}
use kringkasting.Base.Map.{Map, lookup, insert, is_some}

abbrev pub max_buckets : ℕ
max_buckets = 5000

-- ten minutes
abbrev pub bucket_idle : ℕ
bucket_idle = 600000

pub record Bucket : Type 0 where
  pub tokens : ℕ
  pub updated_at : ℕ

-- A capacity and a refill.
pub record Limit : Type 0 where
  pub capacity : ℕ
  pub refill : ℕ

pub record Limiter : Type 0 where
  pub clients : Map Bucket
  pub global : Map Bucket
  pub pruned_at : ℕ

-- The bucket at a key, or a new one.
abbrev pub bucket_or : Option Bucket → Limit → ℕ → Bucket
bucket_or none limit now = record { tokens = limit.capacity; updated_at = now }
bucket_or (some b) limit now = b

abbrev pub refilled : Limit → Bucket → ℕ → ℕ
refilled limit b now = min limit.capacity (b.tokens + (now - b.updated_at) * limit.refill)

unfoldable pub take_token : ℕ → Map Bucket → Bytes → Limit → ℕ → Bool × Map Bucket
unfolding lookup insert
take_token unit buckets key limit now =
    let tokens = refilled limit (bucket_or (lookup key buckets) limit now) now in
    if ltb tokens unit
    then (false, insert key (record { tokens = tokens; updated_at = now }) buckets)
    else (true, insert key (record { tokens = tokens - unit; updated_at = now }) buckets)

unfoldable pub drop_idle : ℕ → Map Bucket → Map Bucket
drop_idle now [] = []
drop_idle now ((k, b) ∷ m) =
    let rest = drop_idle now m in
    if ltb bucket_idle (now - b.updated_at) then rest else (k, b) ∷ rest

abbrev pub pruned : ℕ → Limiter → Limiter
pruned now l =
    if leb 60000 (now - l.pruned_at)
    then record l { pruned_at = now; clients = drop_idle now l.clients }
    else l

abbrev pub emptied : Limiter → Limiter
emptied l = if leb max_buckets (length l.clients) then record l { clients = [] } else l

-- `makeRoom`
unfoldable pub make_room : ℕ → Limiter → Limiter
unfolding drop_idle
make_room now l = if ltb (length l.clients) max_buckets then l else emptied (pruned now l)

abbrev pub with_token : ℕ → Bytes → Option Bucket → Map Bucket → Map Bucket
with_token unit key none m = m
with_token unit key (some b) m = insert key (record b { tokens = b.tokens + unit }) m

-- tokens++ of the bucket at a key, if there is one
unfoldable pub refund : ℕ → Bytes → Map Bucket → Map Bucket
unfolding lookup insert
refund unit key m = with_token unit key (lookup key m) m

abbrev pub client_key : Bytes → Bytes → Bytes
client_key scope client = scope ++ (codes ":" ++ client)

abbrev pub room_for : Bytes → ℕ → Limiter → Limiter
room_for key now l = if is_some (lookup key l.clients) then l else make_room now l

-- What follows a look at the client's own bucket.
abbrev pub take_global :
    ℕ → Bytes → Bytes → Limit → ℕ → Bool × Map Bucket → Limiter → Bool × Limiter
take_global unit scope key limit now (false, clients) l = (false, record l { clients = clients })
take_global unit scope key limit now (true, clients) l =
    let (allowed, global) = take_token unit l.global scope limit now in
    (
      allowed,
      record l { clients = if allowed then clients else refund unit key clients; global = global },
    )

-- `allowScoped`
unfoldable pub allow_scoped : ℕ → Bytes → Bytes → Limit → Limit → ℕ → Limiter → Bool × Limiter
unfolding make_room take_token refund is_some
allow_scoped unit scope client own shared now l =
    let key = client_key scope client in
    let l' = room_for key now l in
    take_global unit scope key shared now (take_token unit l'.clients key own now) l'

-- `refundScoped`
unfoldable pub refund_scoped : ℕ → Bytes → Bytes → Limiter → Limiter
unfolding refund
refund_scoped unit scope client l = record l {
  clients = refund unit (client_key scope client) l.clients;
  global = refund unit scope l.global;
}
