-- ===== src/Tests/WebTests.antt =====
-- internal/web/ratelimit.go: three requests of two clients.
use kringkasting.Base.{length, ℕ, ◌+◌, ◌-◌, ◌*◌, ◌≤◌, ◌≡◌, refl, List, [], ◌∷◌, arith, codes, same}
use kringkasting.Base.Map.{lookup, insert}
use kringkasting.Web.RateLimit.{max_buckets, allow_scoped, refund_scoped, Limit, Limiter}
use kringkasting.Web.RateLimit.Clients.{allow_scoped-bound}
use kringkasting.Web.RateLimit.Budget.{Event, asks, gets_back, allow_all, InOrder, allow_all-bound}

-- The limits of cold feeds: 10 at once and 0.2 a second for a client, 30 and 0.5 for all; a token is
-- 10,000 units.
abbrev token : ℕ
token = 10000

abbrev client_limit : Limit
client_limit = record { capacity = 100000; refill = 2 }

abbrev shared_limit : Limit
shared_limit = record { capacity = 300000; refill = 5 }

abbrev empty : Limiter
empty = record { clients = []; global = []; pruned_at = 0 }

abbrev requests : List Event
requests =
    asks (codes "a") 1000
    ∷ asks (codes "b") 1000
    ∷ gets_back (codes "b")
    ∷ asks (codes "a") 3000
    ∷ []

requests-InOrder : InOrder token (codes "cold") client_limit shared_limit 1000 4000 requests
requests-InOrder = (omega arith, (omega arith, (omega arith, omega arith)))

allow_all-bound_example :
    (allow_all token (codes "cold") client_limit shared_limit requests empty).0 * token
    ≤ shared_limit.capacity
      + (4000 - 1000) * shared_limit.refill
      + (allow_all token (codes "cold") client_limit shared_limit requests empty).1 * token
unfolding lookup
allow_all-bound_example =
    allow_all-bound token (codes "cold") client_limit shared_limit requests 1000 4000 empty refl
      requests-InOrder

allowed_three : (allow_all token (codes "cold") client_limit shared_limit requests empty).0 ≡ 3
unfolding allow_all lookup insert same
allowed_three = refl

abbrev busy : Limiter
busy = record empty { clients = (codes "cold:b", record { tokens = 0; updated_at = 500 }) ∷ [] }

allow_scoped-bound_example :
    (length
        (allow_scoped token
          (codes "cold")
          (codes "a")
          client_limit
          shared_limit
          1000
          busy).1.clients
      ≤ max_buckets)
    × (length (refund_scoped token (codes "cold") (codes "a") busy).clients ≤ max_buckets)
allow_scoped-bound_example =
    allow_scoped-bound token (codes "cold") (codes "a") client_limit shared_limit 1000 busy
      (omega arith)
