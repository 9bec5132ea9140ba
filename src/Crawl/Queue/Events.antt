-- ===== src/Crawl/Queue/Events.antt =====
-- The events that the dashboard shows.
use mathlib.Core.List.{reverse, reverse-append}
use kringkasting.Base.{
  ℕ, zero, suc, ◌+◌, ◌≤◌, ◌≡◌, refl, sym, ap, ◌∙◌, inl, inr, false, List, [], ◌∷◌, ◌++◌,
  append_assoc, append-nil, arith, ltb, ltb→lt, Bool-cases, length, take, drop, length-append,
  length-drop, Bytes,
}
use kringkasting.Crawl.Queue.{Crawler, max_events, record_event, status}

-- Messages recorded one after another.
unfoldable pub record_all : List Bytes → Crawler → Crawler
record_all [] c = c
record_all (m ∷ ms) c = record_all ms (record_event m c)

length-reverse : (xs : List Bytes) → length (reverse xs) ≡ length xs
length-reverse [] = refl
length-reverse (x ∷ xs) =
    ap length (reverse-append (x ∷ []) xs)
    ∙ omega (arith, length-append (reverse xs) (x ∷ []), length-reverse xs)

take-length-append : (xs ys : List Bytes) → take (length xs) (xs ++ ys) ≡ xs
take-length-append [] ys = refl
take-length-append (x ∷ xs) ys = ap (◌∷◌ x) (take-length-append xs ys)

take_all : (n : ℕ) (xs : List Bytes) → length xs ≤ n → take n xs ≡ xs
take_all zero [] h = refl
take_all zero (x ∷ xs) h = absurd (omega arith)
take_all (suc n) [] h = refl
take_all (suc n) (x ∷ xs) h = ap (◌∷◌ x) (take_all n xs (omega arith))

take-take : (n k : ℕ) (xs : List Bytes) → n ≤ k → take n (take k xs) ≡ take n xs
take-take zero k xs h = refl
take-take (suc n) zero xs h = absurd (omega arith)
take-take (suc n) (suc k) [] h = refl
take-take (suc n) (suc k) (x ∷ xs) h = ap (◌∷◌ x) (take-take n k xs (omega arith))

reverse-drop_one :
    (xs : List Bytes) (n : ℕ) → length xs ≡ suc n → reverse (drop 1 xs) ≡ take n (reverse xs)
reverse-drop_one [] n h = absurd (omega arith)
reverse-drop_one (x ∷ xs) n h =
    let e : n ≡ length (reverse xs) = omega (arith, length-reverse xs) in
    rw (reverse-append (x ∷ []) xs, e) (sym (take-length-append (reverse xs) (x ∷ [])))

take-append-take :
    (n k : ℕ) (xs ys : List Bytes) → n ≤ k → take n (xs ++ take k ys) ≡ take n (xs ++ ys)
take-append-take n k [] ys h = take-take n k ys h
take-append-take zero k (x ∷ xs) ys h = refl
take-append-take (suc n) k (x ∷ xs) ys h = ap (◌∷◌ x) (take-append-take n k xs ys (omega arith))

record_event-events :
    (m : Bytes) (c : Crawler)
    → length c.events ≤ max_events
    → (reverse (record_event m c).events ≡ take max_events (m ∷ reverse c.events))
      × (length (record_event m c).events ≤ max_events)
unfolding record_event
record_event-events m c h = elim (Bool-cases (ltb max_events (length (c.events ++ m ∷ [])))) [
  | inl full ↦ rw full (
    reverse-drop_one (c.events ++ m ∷ []) max_events (omega (arith, longer, ltb→lt _ _ full))
        ∙ ap (take max_events) (reverse-append c.events (m ∷ [])),
    omega (arith, longer, length-drop 1 (c.events ++ m ∷ [])),
  )
  | inr room ↦ rw room (
    reverse-append c.events (m ∷ [])
        ∙ sym (
            take_all max_events (m ∷ reverse c.events)
              (omega (arith, length-reverse c.events, fits room))),
    fits' room,
  )
]
  where
    longer : length (c.events ++ m ∷ []) ≡ length c.events + 1
    longer = length-append c.events (m ∷ [])

    fits' :
        ltb max_events (length (c.events ++ m ∷ [])) ≡ false
        → length (c.events ++ m ∷ []) ≤ max_events
    fits' room = ground arith

    fits : ltb max_events (length (c.events ++ m ∷ [])) ≡ false → length c.events + 1 ≤ max_events
    fits room = omega (arith, longer, fits' room)

record_all-events :
    (ms : List Bytes) (c : Crawler)
    → length c.events ≤ max_events
    → (reverse (record_all ms c).events ≡ take max_events (reverse ms ++ reverse c.events))
      × (length (record_all ms c).events ≤ max_events)
unfolding record_all
record_all-events [] c h =
    (sym (take_all max_events (reverse c.events) (omega (arith, length-reverse c.events))), h)
record_all-events (m ∷ ms) c h =
    let (shown, fits) = record_event-events m c h in
    let (all, bounded) = record_all-events ms (record_event m c) fits in
    (
      all
          ∙ ap (λ es. take max_events (reverse ms ++ es)) shown
          ∙ take-append-take max_events max_events (reverse ms) (m ∷ reverse c.events) (omega arith)
          ∙ ap (take max_events) (
              sym (append_assoc (reverse ms) (m ∷ []) (reverse c.events))
              ∙ ap (λ es. es ++ reverse c.events) (sym (reverse-append (m ∷ []) ms))),
      bounded,
    )

-- However many messages have been recorded, the dashboard shows the last twenty, newest first, and
-- no more are kept.
pub status-recent :
    (ms : List Bytes) (c : Crawler)
    → c.events ≡ []
    → ((status (record_all ms c)).recent ≡ take max_events (reverse ms))
      × (length (record_all ms c).events ≤ max_events)
unfolding status
status-recent ms c h =
    let (shown, fits) = record_all-events ms c (rw h (omega arith)) in
    (shown ∙ rw h (ap (take max_events) (append-nil (reverse ms))), fits)
