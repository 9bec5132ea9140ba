-- ===== src/Web/RateLimit/Budget.antt =====
-- The shared bucket of a scope bounds what all its clients together may do.
use mathlib.Core.Path.{subst}
use kringkasting.Base.{
  refl, ℕ, ◌+◌, ◌-◌, ◌*◌, ◌≤◌, ◌≡◌, sym, ap, ◌∙◌, inl, inr, Bool, true, false, Option, none, some,
  List, [], ◌∷◌, arith, ltb, if◌then◌else◌, Bool-cases, Bytes,
}
use kringkasting.Base.Map.{Map, lookup, lookup-insert_self}
use kringkasting.Web.RateLimit.{
  Bucket, Limit, Limiter, bucket_or, refilled, take_token, make_room, room_for, client_key,
  take_global, allow_scoped, refund, refund_scoped, with_token,
}

-- The tokens that a bucket can give at a time.
abbrev budget : Limit → Option Bucket → ℕ → ℕ
budget limit o now = refilled limit (bucket_or o limit now) now

-- It was last filled by then.
abbrev IsPast : ℕ → Option Bucket → Type 0
IsPast t none = Unit
IsPast t (some b) = b.updated_at ≤ t

abbrev cost : ℕ → Bool → ℕ
cost unit true = unit
cost unit false = 0

-- Between two times a bucket gains at most what is refilled.
budget-later :
    (limit : Limit) (o : Option Bucket) (t now : ℕ)
    → IsPast t o
    → t ≤ now
    → budget limit o now ≤ budget limit o t + (now - t) * limit.refill
budget-later limit none t now p h = omega arith
budget-later limit (some b) t now p h =
    let split : (now - b.updated_at) ≡ (t - b.updated_at) + (now - t) = omega (arith, p, h) in
    let product : (now - b.updated_at) * limit.refill
        ≡ (t - b.updated_at) * limit.refill + (now - t) * limit.refill =
      ap (λ d. d * limit.refill) split ∙ omega arith in
    omega (arith, product)

-- A bucket that was just written has what it says.
budget-now :
    (limit : Limit) (n now : ℕ)
    → n ≤ limit.capacity
    → budget limit (some (record { tokens = n; updated_at = now })) now ≡ n
budget-now limit n now h =
    let still : (now - now) * limit.refill ≡ 0 =
      ap (λ d. d * limit.refill) {x = now - now} {y = 0} (omega arith) ∙ omega arith in
    omega (arith, still, h)

enough : (a b : ℕ) → ltb a b ≡ false → b ≤ a
enough a b h = ground (arith, h)

-- A token is taken from what the bucket has.
take_token-budget :
    (unit : ℕ) (buckets : Map Bucket) (key : Bytes) (limit : Limit) (now : ℕ)
    → (cost unit (take_token unit buckets key limit now).0
          + budget limit (lookup key (take_token unit buckets key limit now).1) now
        ≤ budget limit (lookup key buckets) now)
      × IsPast now (lookup key (take_token unit buckets key limit now).1)
unfolding take_token
take_token-budget unit buckets key limit now =
    let tokens = budget limit (lookup key buckets) now in
    elim (Bool-cases (ltb tokens unit)) [
      | inl s ↦ rw s (
          rw lookup-insert_self
            (omega (arith, budget-now limit tokens now (omega arith)), omega arith))
      | inr s ↦ rw s (
          rw lookup-insert_self (
            omega (arith, enough tokens unit s, budget-now limit (tokens - unit) now (omega arith)),
            omega arith,
          ))
    ]

room_for-global : (key : Bytes) (now : ℕ) (l : Limiter) → (room_for key now l).global ≡ l.global
unfolding make_room
room_for-global key now l = ground arith

-- What happens to the scope: a request of a client at a time, and a refund to a client.
pub data Event : Type 0 where
  asks : Bytes → ℕ → Event
  gets_back : Bytes → Event

module _ (unit : ℕ) (scope : Bytes) (own shared : Limit) where
  take_global-budget :
      (key : Bytes) (t now : ℕ) (o : Bool × Map Bucket) (l : Limiter)
      → IsPast t (lookup scope l.global)
      → t ≤ now
      → (cost unit (take_global unit scope key shared now o l).0
            + budget shared (lookup scope (take_global unit scope key shared now o l).1.global) now
          ≤ budget shared (lookup scope l.global) now)
        × IsPast now (lookup scope (take_global unit scope key shared now o l).1.global)
  take_global-budget key t now (true, clients) l p h =
      take_token-budget unit l.global scope shared now
  take_global-budget key t now (false, clients) l p h =
      (omega arith, later (lookup scope l.global) p)
    where
      later : (b : Option Bucket) → IsPast t b → IsPast now b
      later none q = tt
      later (some b) q = omega (arith, q, h)

  allow_scoped-budget :
      (client : Bytes) (t now : ℕ) (l : Limiter)
      → IsPast t (lookup scope l.global)
      → t ≤ now
      → (cost unit (allow_scoped unit scope client own shared now l).0
            + budget shared
                (lookup scope (allow_scoped unit scope client own shared now l).1.global)
                now
          ≤ budget shared (lookup scope l.global) now)
        × IsPast now (lookup scope (allow_scoped unit scope client own shared now l).1.global)
  unfolding allow_scoped
  allow_scoped-budget client t now l p h =
      let key = client_key scope client in
      let l' = room_for key now l in
      let same_global : l'.global ≡ l.global = room_for-global key now l in
      let step =
        take_global-budget key t now (take_token unit l'.clients key own now) l'
          (subst (λ g. IsPast t (lookup scope g)) (sym same_global) p) h in
      (omega (arith, step.0, ap (λ g. budget shared (lookup scope g) now) same_global), step.1)

  abbrev counted_if : Bool → ℕ × ℕ × Limiter → ℕ × ℕ × Limiter
  counted_if allowed (n, m, l) = (if allowed then n + 1 else n, m, l)

  abbrev refunded : ℕ × ℕ × Limiter → ℕ × ℕ × Limiter
  refunded (n, m, l) = (n, m + 1, l)

  -- How many requests are allowed, and how many refunds there are.
  unfoldable pub allow_all : List Event → Limiter → ℕ × ℕ × Limiter
  unfolding allow_scoped refund_scoped
  allow_all [] l = (0, 0, l)
  allow_all (asks client now ∷ events) l =
      let (allowed, l') = allow_scoped unit scope client own shared now l in
      counted_if allowed (allow_all events l')
  allow_all (gets_back client ∷ events) l =
      refunded (allow_all events (refund_scoped unit scope client l))

  -- The times do not run backwards, and end by `last`.
  abbrev pub InOrder : ℕ → ℕ → List Event → Type 0
  InOrder t last [] = t ≤ last
  InOrder t last (asks client now ∷ events) = (t ≤ now) × InOrder now last events
  InOrder t last (gets_back client ∷ events) = InOrder t last events

  InOrder-le : (t last : ℕ) (events : List Event) → InOrder t last events → t ≤ last
  InOrder-le t last [] h = h
  InOrder-le t last (asks client now ∷ events) h =
      omega (arith, h.0, InOrder-le now last events h.1)
  InOrder-le t last (gets_back client ∷ events) h = InOrder-le t last events h

  -- A refund adds at most a token to what the bucket can give.
  refund_scoped-budget :
      (client : Bytes) (t : ℕ) (l : Limiter)
      → IsPast t (lookup scope l.global)
      → (budget shared (lookup scope (refund_scoped unit scope client l).global) t
          ≤ budget shared (lookup scope l.global) t + unit)
        × IsPast t (lookup scope (refund_scoped unit scope client l).global)
  unfolding refund_scoped refund
  refund_scoped-budget client t l p = with_bucket (lookup scope l.global) refl p
    where
      with_bucket :
          (o : Option Bucket)
          → lookup scope l.global ≡ o
          → IsPast t o
          → (budget shared (lookup scope (with_token unit scope o l.global)) t
              ≤ budget shared o t + unit)
            × IsPast t (lookup scope (with_token unit scope o l.global))
      with_bucket none e q = rw e (omega arith, tt)
      with_bucket (some b) e q = rw lookup-insert_self (omega arith, q)

  allow_all-budget :
      (events : List Event) (t last : ℕ) (l : Limiter)
      → IsPast t (lookup scope l.global)
      → InOrder t last events
      → (allow_all events l).0 * unit
        ≤ budget shared (lookup scope l.global) t
          + (last - t) * shared.refill
          + (allow_all events l).1 * unit
  unfolding allow_all
  allow_all-budget [] t last l p h = omega arith
  allow_all-budget (asks client now ∷ events) t last l p h =
      let step = allow_scoped-budget client t now l p h.0 in
      let outcome = allow_scoped unit scope client own shared now l in
      let later = allow_all-budget events now last outcome.1 step.1 h.1 in
      let earlier = budget-later shared (lookup scope l.global) t now p h.0 in
      let split : (last - t) ≡ (now - t) + (last - now) =
        omega (arith, h.0, InOrder-le now last events h.1) in
      let product : (last - t) * shared.refill
          ≡ (now - t) * shared.refill + (last - now) * shared.refill =
        ap (λ d. d * shared.refill) split ∙ omega arith in
      omega
        (arith, step.0, later, earlier, product, counted outcome.0 (allow_all events outcome.1).0)
    where
      counted : (a : Bool) (n : ℕ) → (if a then n + 1 else n) * unit ≡ cost unit a + n * unit
      counted true n = omega arith
      counted false n = omega arith
  allow_all-budget (gets_back client ∷ events) t last l p h =
      let step = refund_scoped-budget client t l p in
      let l' = refund_scoped unit scope client l in
      let later = allow_all-budget events t last l' step.1 h in
      let one_more : ((allow_all events l').1 + 1) * unit ≡ (allow_all events l').1 * unit + unit =
        omega arith in
      omega (arith, step.0, later, one_more)

  -- However many clients ask, and whatever their own limits: of the requests of a scope made up to
  -- `last`, in the order of time from the first use of the scope at `t` on, no more are allowed than
  -- the tokens of the capacity of the scope, of its refill in that time, and of the refunds that were
  -- made in between.
  pub allow_all-bound :
      (events : List Event) (t last : ℕ) (l : Limiter)
      → lookup scope l.global ≡ none
      → InOrder t last events
      → (allow_all events l).0 * unit
        ≤ shared.capacity + (last - t) * shared.refill + (allow_all events l).1 * unit
  allow_all-bound events t last l fresh h =
      let past : IsPast t (lookup scope l.global) = subst (IsPast t) (sym fresh) tt in
      let full : budget shared (lookup scope l.global) t ≤ shared.capacity = omega arith in
      omega (arith, allow_all-budget events t last l past h, full)
