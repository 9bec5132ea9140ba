-- ===== src/Nrk/Upstream/Slots.antt =====
-- The slots: bounds in every interleaving, and every waiter's turn.
use kringkasting.Base.{
  ℕ, suc, ◌+◌, ◌-◌, ◌≤◌, ◌≡◌, refl, ap, inl, inr, Option, none, some, List, [], ◌∷◌, arith, ltb,
  leb, Bool-cases, length, length-append,
}
use kringkasting.Nrk.Upstream.{
  Upstream, idle, Acquired, granted, saturated, waiting, acquire, hand_over, release,
  max_concurrent_upstream, max_queued_upstream,
}

-- Requests arrive, and requests that hold a slot give it back.
pub data Event : Type 0 where
  arrives : ℕ → Event
  departs : Event

-- The layer, with the number of requests that hold a slot.
pub record System : Type 0 where
  pub upstream : Upstream
  pub holders : ℕ

abbrev holders_after : Acquired → ℕ → ℕ
holders_after granted n = n + 1
holders_after saturated n = n
holders_after waiting n = n

abbrev after_release : Option ℕ → ℕ → ℕ
after_release none n = n - 1
after_release (some next) n = n

pub data Step : System → System → Type 0 where
  arrival :
      (s : System) (id : ℕ)
      → Step s (record {
        upstream = (acquire id s.upstream).1;
        holders = holders_after (acquire id s.upstream).0 s.holders;
      })
  departure :
      (s : System)
      → 1 ≤ s.holders
      → Step s (record {
        upstream = (release s.upstream).1;
        holders = after_release (release s.upstream).0 s.holders;
      })

pub data Reach : System → Type 0 where
  start : Reach (record { upstream = idle; holders = 0 })
  next : {s t : System} → Reach s → Step s t → Reach t

-- As many hold a slot as are counted, no more than twelve; no more than 64 wait; and none waits while
-- a slot is free.
pub record IsBounded (s : System) : Type 0 where
  pub counted : s.upstream.in_flight ≡ s.holders
  pub slots : s.holders ≤ max_concurrent_upstream
  pub queue : length s.upstream.waiters ≤ max_queued_upstream
  pub busy : 1 ≤ length s.upstream.waiters → s.holders ≡ max_concurrent_upstream

arrival-IsBounded :
    (s : System) (id : ℕ)
    → IsBounded s
    → IsBounded (record {
      upstream = (acquire id s.upstream).1;
      holders = holders_after (acquire id s.upstream).0 s.holders;
    })
unfolding acquire
arrival-IsBounded s id h = elim (Bool-cases (ltb s.upstream.in_flight max_concurrent_upstream)) [
  | inl free ↦ rw free (record {
    counted = ground (arith, h.counted);
    slots = ground (arith, h.counted, free);
    queue = h.queue;
    busy = λ w. absurd (ground (arith, h.busy w, h.counted, free));
  })
  | inr full ↦ rw full (elim (Bool-cases (leb max_queued_upstream (length s.upstream.waiters))) [
    | inl long ↦ rw long h
    | inr short ↦ rw short (record {
      counted = h.counted;
      slots = h.slots;
      queue = ground (arith, short, length-append s.upstream.waiters (id ∷ []));
      busy = λ w. ground (arith, h.counted, h.slots, full);
    })
  ])
]

departure-IsBounded :
    (u : Upstream) (holders : ℕ) (ws : List ℕ)
    → u.waiters ≡ ws
    → 1 ≤ holders
    → IsBounded (record { upstream = u; holders = holders })
    → IsBounded (record {
      upstream = (hand_over ws u).1;
      holders = after_release (hand_over ws u).0 holders;
    })
departure-IsBounded u holders [] e p h =
    let none_wait : length u.waiters ≡ 0 = ap length e in
    record {
      counted = omega (arith, h.counted, p);
      slots = omega (arith, h.slots);
      queue = h.queue;
      busy = λ w. absurd (omega (arith, w, none_wait));
    }
departure-IsBounded u holders (w ∷ ws) e p h =
    let some_wait : length u.waiters ≡ suc (length ws) = ap length e in
    record {
      counted = h.counted;
      slots = h.slots;
      queue = omega (arith, h.queue, some_wait);
      busy = λ q. h.busy (omega (arith, some_wait));
    }

Step-IsBounded : {s t : System} → Step s t → IsBounded s → IsBounded t
unfolding release
Step-IsBounded (arrival s id) h = arrival-IsBounded s id h
Step-IsBounded (departure s p) h =
    departure-IsBounded s.upstream s.holders s.upstream.waiters refl p h

-- However requests come and go: as many hold a slot as the layer counts, twelve at most; no more than
-- 64 wait; and none waits while a slot is free.
pub slots-IsBounded : {s : System} → Reach s → IsBounded s
slots-IsBounded start = record {
  counted = refl;
  slots = omega arith;
  queue = omega arith;
  busy = λ w. absurd (omega (arith, w));
}
slots-IsBounded (next r step) = Step-IsBounded step (slots-IsBounded r)
