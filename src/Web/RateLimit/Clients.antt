-- ===== src/Web/RateLimit/Clients.antt =====
-- The buckets of the clients stay few.
use kringkasting.Base.{
  ℕ, ◌+◌, ◌-◌, ◌≤◌, ◌<◌, ◌≡◌, refl, ◌⊎◌, inl, inr, Bool, true, false, Option, none, some, arith,
  ltb, ltb→lt, Bool-cases, length, Bytes,
}
use kringkasting.Base.Map.{Map, lookup, insert, is_some, length-insert-le, length-insert_present}
use kringkasting.Web.RateLimit.{
  Bucket, Limit, Limiter, max_buckets, bucket_or, refilled, take_token, make_room, pruned, emptied,
  room_for, client_key, take_global, refund, with_token, allow_scoped, refund_scoped,
}

-- There is room for a new bucket, or the client has one.
abbrev HasRoom : Bytes → Limiter → Type 0
HasRoom key l =
    (length l.clients < max_buckets)
    ⊎ ((is_some (lookup key l.clients) ≡ true) × (length l.clients ≤ max_buckets))

make_room-bound : (now : ℕ) (l : Limiter) → length (make_room now l).clients < max_buckets
unfolding make_room
make_room-bound now l = elim (Bool-cases (ltb (length l.clients) max_buckets)) [
  | inl s ↦ rw s (ltb→lt _ _ s)
  | inr s ↦ rw s (emptied-bound (pruned now l))
]
  where
    emptied-bound : (m : Limiter) → length (emptied m).clients < max_buckets
    emptied-bound m = ground arith

room_for-HasRoom :
    (key : Bytes) (now : ℕ) (l : Limiter)
    → length l.clients ≤ max_buckets
    → HasRoom key (room_for key now l)
room_for-HasRoom key now l h = elim (Bool-cases (is_some (lookup key l.clients))) [
  | inl s ↦ rw s (inr (s, h))
  | inr s ↦ rw s (inl (make_room-bound now l))
]

insert-bound :
    (key : Bytes) (b : Bucket) (l : Limiter)
    → HasRoom key l
    → length (insert key b l.clients) ≤ max_buckets
insert-bound key b l (inl h) = omega (arith, h, length-insert-le key b l.clients)
insert-bound key b l (inr h) = omega (arith, h.1, length-insert_present key b l.clients h.0)

take_token-bound :
    (unit : ℕ) (key : Bytes) (limit : Limit) (now : ℕ) (l : Limiter)
    → HasRoom key l
    → length (take_token unit l.clients key limit now).1 ≤ max_buckets
unfolding take_token
take_token-bound unit key limit now l h =
    let tokens = refilled limit (bucket_or (lookup key l.clients) limit now) now in
    elim (Bool-cases (ltb tokens unit)) [
      | inl s ↦ rw s (insert-bound key (record { tokens = tokens; updated_at = now }) l h)
      | inr s ↦ rw s (insert-bound key (record { tokens = tokens - unit; updated_at = now }) l h)
    ]

refund-bound : (unit : ℕ) (key : Bytes) (m : Map Bucket) → length (refund unit key m) ≡ length m
unfolding refund
refund-bound unit key m = go (lookup key m) refl
  where
    go : (o : Option Bucket) → lookup key m ≡ o → length (with_token unit key o m) ≡ length m
    go none e = refl
    go (some b) e =
        length-insert_present key (record b { tokens = b.tokens + unit }) m
          (unfold is_some in rw e refl)

take_global-bound :
    (unit : ℕ) (scope key : Bytes) (shared : Limit) (now : ℕ) (o : Bool × Map Bucket) (l : Limiter)
    → length o.1 ≤ max_buckets
    → length (take_global unit scope key shared now o l).1.clients ≤ max_buckets
take_global-bound unit scope key shared now (false, clients) l h = h
take_global-bound unit scope key shared now (true, clients) l h =
    elim (Bool-cases ((take_token unit l.global scope shared now).0)) [
      | inl s ↦ rw s h
      | inr s ↦ rw s (omega (arith, h, refund-bound unit key clients))
    ]

-- The clients' buckets are never more than 5,000: both operations keep to that, whatever the scope,
-- the client, the limits and the time.
pub allow_scoped-bound :
    (unit : ℕ) (scope client : Bytes) (own shared : Limit) (now : ℕ) (l : Limiter)
    → length l.clients ≤ max_buckets
    → (length (allow_scoped unit scope client own shared now l).1.clients ≤ max_buckets)
      × (length (refund_scoped unit scope client l).clients ≤ max_buckets)
unfolding allow_scoped refund_scoped
allow_scoped-bound unit scope client own shared now l h =
    let key = client_key scope client in
    let l' = room_for key now l in
    (
      take_global-bound unit scope key shared now (take_token unit l'.clients key own now) l'
          (take_token-bound unit key own now l' (room_for-HasRoom key now l h)),
      omega (arith, h, refund-bound unit key l.clients),
    )
