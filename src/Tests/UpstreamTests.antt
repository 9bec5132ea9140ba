-- ===== src/Tests/UpstreamTests.antt =====
-- internal/nrk/http.go: a full house, and an answer that asks for a pause.
use kringkasting.Base.{ℕ, ◌+◌, ◌≡◌, refl, true, false, none, List, [], ◌∷◌, arith, Bytes, codes}
use kringkasting.Base.Map.{lookup}
use kringkasting.Retry
use kringkasting.Retry.{RetryTable, max_delay}
use kringkasting.Nrk.Upstream.{
  Upstream, Reply, response, idle, acquire, allowed, with_slot, get_reply, get_json, failed,
}
use kringkasting.Nrk.Upstream.Slots.{System, start, next, arrival, IsBounded, slots-IsBounded}
use kringkasting.Nrk.Upstream.Turns.{departures, arrives, departs, turns, turns-in_order}
use kringkasting.Nrk.Upstream.Outcomes.{get_json-pauses_origin}

abbrev one_running : System
one_running = record { upstream = record { in_flight = 1; waiters = [] }; holders = 1 }

slots-IsBounded_example : IsBounded one_running
unfolding acquire
slots-IsBounded_example =
    slots-IsBounded (next start (arrival (record { upstream = idle; holders = 0 }) 7))

abbrev full : Upstream
full = record { in_flight = 12; waiters = 1 ∷ (2 ∷ []) }

turns-in_order_example :
    (rest : List ℕ) × (turns (departs ∷ (arrives 3 ∷ (departs ∷ []))) full ≡ 1 ∷ (2 ∷ rest))
unfolding departures
turns-in_order_example =
    turns-in_order (1 ∷ []) [] 2 (departs ∷ (arrives 3 ∷ (departs ∷ []))) full refl (omega arith)

-- One origin for all, and every header asks for ten seconds.
abbrev same_origin : Bytes → Bytes
same_origin url = codes "https://psapi.nrk.no"

abbrev ten_seconds : Bytes → ℕ → ℕ
ten_seconds header now = now + 10000

abbrev too_many : Reply
too_many = response 429 (codes "10") false none

all_allowed :
    allowed same_origin ten_seconds [] (codes "GET") (codes "https://psapi.nrk.no/a") 1000 ≡ true
unfolding allowed Retry.can lookup
all_allowed = refl

get_json-pauses_origin_example :
    with_slot same_origin ten_seconds
      (codes "GET")
      (get_reply same_origin ten_seconds)
      (get_json same_origin ten_seconds [] true []
        (codes "https://psapi.nrk.no/a")
        too_many
        1000
        1000).table
      true
      []
      (codes "https://psapi.nrk.no/b")
      too_many
      5000
      5000
    ≡ failed 503
        (get_json same_origin ten_seconds [] true []
          (codes "https://psapi.nrk.no/a")
          too_many
          1000
          1000).table
        []
get_json-pauses_origin_example =
    get_json-pauses_origin same_origin ten_seconds [] [] (codes "https://psapi.nrk.no/a") 429
      (codes "10") false none 1000 1000 (codes "GET") (codes "https://psapi.nrk.no/b")
      (get_reply same_origin ten_seconds) true [] too_many 5000 5000 all_allowed all_allowed refl
      (omega arith) refl (omega arith)
