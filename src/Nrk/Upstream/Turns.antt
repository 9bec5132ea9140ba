-- ===== src/Nrk/Upstream/Turns.antt =====
-- The queue for the slots is first come, first served, and every waiter gets its turn.
use mathlib.Core.Path.{subst}
use kringkasting.Base.{
  ℕ, ◌+◌, ◌≤◌, ◌<◌, ◌≡◌, refl, sym, ap, ◌∙◌, inl, inr, Option, none, some, List, [], ◌∷◌, ◌++◌,
  append_assoc, arith, ltb, leb, Bool-cases, length, length-append,
}
use kringkasting.Nrk.Upstream.{
  Upstream, acquire, hand_over, release, max_concurrent_upstream, max_queued_upstream,
}

-- Requests arrive, and requests that hold a slot give it back.
pub data Event : Type 0 where
  arrives : ℕ → Event
  departs : Event

abbrev pub handed : Option ℕ → List ℕ → List ℕ
handed none ids = ids
handed (some id) ids = id ∷ ids

-- The requests that are handed a slot, in order.
unfoldable pub turns : List Event → Upstream → List ℕ
unfolding acquire release
turns [] u = []
turns (arrives id ∷ events) u = turns events (acquire id u).1
turns (departs ∷ events) u = handed (release u).0 (turns events (release u).1)

unfoldable pub departures : List Event → ℕ
departures [] = 0
departures (arrives id ∷ events) = departures events
departures (departs ∷ events) = departures events + 1

-- An arrival leaves those who wait where they are.
acquire-waiters :
    (id : ℕ) (u : Upstream) (ws : List ℕ) (more : List ℕ)
    → u.waiters ≡ ws ++ more
    → (later : List ℕ) × ((acquire id u).1.waiters ≡ ws ++ later)
unfolding acquire
acquire-waiters id u ws more e = elim (Bool-cases (ltb u.in_flight max_concurrent_upstream)) [
  | inl free ↦ rw free (more, e)
  | inr full ↦ rw full (elim (Bool-cases (leb max_queued_upstream (length u.waiters))) [
    | inl long ↦ rw long (more, e)
    | inr short ↦
        rw short (more ++ (id ∷ []), ap (λ t. t ++ (id ∷ [])) e ∙ append_assoc ws more (id ∷ []))
  ])
]

turns-waiting :
    (events : List Event) (u : Upstream) (ws more : List ℕ)
    → u.waiters ≡ ws ++ more
    → length ws ≤ departures events
    → (rest : List ℕ) × (turns events u ≡ ws ++ rest)
unfolding turns departures
turns-waiting events u [] more e n = (turns events u, refl)
turns-waiting [] u (w ∷ ws) more e n = absurd (omega (arith, n))
turns-waiting (arrives id ∷ events) u (w ∷ ws) more e n =
    let (later, kept) = acquire-waiters id u (w ∷ ws) more e in
    turns-waiting events (acquire id u).1 (w ∷ ws) later kept n
turns-waiting (departs ∷ events) u (w ∷ ws) more e n =
    let next = record u { waiters = ws ++ more } in
    let (rest, done) = turns-waiting events next ws more refl (omega (arith, n)) in
    (
      rest,
      subst (λ vs. handed (hand_over vs u).0 (turns events (hand_over vs u).1) ≡ w ∷ (ws ++ rest))
          (sym e) (ap (λ t. w ∷ t) done),
    )

-- Whatever requests arrive meanwhile: a request that waits behind others is handed a slot by the
-- departure that follows one for each of them, after them and before all that came later.
pub turns-in_order :
    (before after : List ℕ) (id : ℕ) (events : List Event) (u : Upstream)
    → u.waiters ≡ before ++ (id ∷ after)
    → length before < departures events
    → (rest : List ℕ) × (turns events u ≡ before ++ (id ∷ rest))
turns-in_order before after id events u e n =
    let front : u.waiters ≡ (before ++ (id ∷ [])) ++ after =
      e ∙ sym (append_assoc before (id ∷ []) after) in
    let (rest, done) =
      turns-waiting events u (before ++ (id ∷ [])) after front
        (omega (arith, n, length-append before (id ∷ []))) in
    (rest, done ∙ append_assoc before (id ∷ []) rest)
