-- ===== src/Crawl/Queue/Workers.antt =====
-- However the goroutines interleave, at most one of them crawls, and no feed waits twice.
use mathlib.Core.Path.{subst}
use kringkasting.Base.{
  ℕ, zero, suc, ◌<◌, sym, ◌≤◌, ◌≡◌, refl, ap, ◌∙◌, inl, inr, Bool, true, false, ◌||◌, List, [], ◌∷◌,
  ◌++◌, arith, if◌then◌else◌, Bool-cases, length, Bytes, same, same_iff,
}
use kringkasting.Base.Map.{mem, mem-append, mem-remove}
use kringkasting.Crawl.Queue.{
  Worker, ready, crawling, Crawler, new, admit, enqueue, drained, take_next, finish, Step, enqueues,
  takes, finishes, cancels, process_queue, crawled, Reach, start, next,
}

-- No id twice.
abbrev pub Once : List Bytes → Type 0
Once [] = Unit
Once (id ∷ ids) = (mem id ids ≡ false) × Once ids

-- What the one goroutine, if there is one, has in hand, beside what waits.
abbrev pub InHand : Crawler → List Worker → Type 0
InHand c [] =
    (c.running ≡ false) × (c.idle ≡ true) × (c.queue ≡ []) × ((k : Bytes) → mem k c.queued ≡ false)
InHand c (ready ∷ []) =
    (c.running ≡ true) × (c.idle ≡ false) × ((k : Bytes) → mem k c.queued ≡ mem k c.queue)
InHand c (crawling id ∷ []) =
    (c.running ≡ true)
    × (c.idle ≡ false)
    × (c.current ≡ id)
    × (mem id c.queue ≡ false)
    × ((k : Bytes) → mem k c.queued ≡ (same id k || mem k c.queue))
InHand c (v ∷ w ∷ ws) = ⊥

pub record IsConsistent (c : Crawler) : Type 0 where
  pub once : Once c.queue
  pub in_hand : InHand c c.workers

IsConsistent-new : IsConsistent new
unfolding mem
IsConsistent-new = record { once = tt; in_hand = (refl, refl, refl, λ k. refl) }

Once-append :
    (id : Bytes) (ids : List Bytes) → Once ids → mem id ids ≡ false → Once (ids ++ id ∷ [])
unfolding mem
Once-append id [] o h = (refl, tt)
Once-append id (j ∷ js) o h = (
  ground (arith, mem-append j js (id ∷ []), same_iff id j, same_iff j id),
  Once-append id js o.1 (ground arith),
)

two : (c : Crawler) (v w : Worker) (ws : List Worker) → InHand c (v ∷ w ∷ ws) → ⊥
two c ready w ws h = h
two c (crawling id) w ws h = h

-- There is no second goroutine, so a step of one is a step of the only one.
alone :
    (c : Crawler) (w : Worker) (ws before after : List Worker)
    → InHand c ws
    → ws ≡ before ++ w ∷ after
    → (before ≡ []) × (after ≡ []) × InHand c (w ∷ [])
alone c w ws [] [] h e = (refl, refl, subst (InHand c) e h)
alone c w ws [] (v ∷ vs) h e = absurd (two c w v vs (subst (InHand c) e h))
alone c w ws (v ∷ []) after h e = absurd (two c v w after (subst (InHand c) e h))
alone c w ws (v ∷ u ∷ us) after h e = absurd (two c v u (us ++ w ∷ after) (subst (InHand c) e h))

admit-IsConsistent :
    (c : Crawler) (ws : List Worker) (id : Bytes)
    → c.workers ≡ ws
    → InHand c ws
    → Once c.queue
    → mem id c.queued ≡ false
    → IsConsistent (admit id c)
unfolding mem
admit-IsConsistent c [] id e h o new_id = record {
  once = Once-append id c.queue o (ground (arith, ap (mem id) h.2));
  in_hand = subst (InHand (admit id c)) {x = ready ∷ []} {y = (admit id c).workers} (ground arith) (
    refl,
    ground arith,
    λ k. ground (arith, h.3 k, mem-append k c.queue (id ∷ []), ap (mem k) h.2),
  );
}
admit-IsConsistent c (ready ∷ []) id e h o new_id = record {
  once = Once-append id c.queue o (ground (arith, h.2 id));
  in_hand =
      subst (InHand (admit id c)) {x = ready ∷ []} {y = (admit id c).workers} (ground arith)
        (refl, ground arith, λ k. ground (arith, h.2 k, mem-append k c.queue (id ∷ [])));
}
admit-IsConsistent c (crawling j ∷ []) id e h o new_id = record {
  once = Once-append id c.queue o (ground (arith, h.4 id));
  in_hand =
      subst (InHand (admit id c)) {x = crawling j ∷ []} {y = (admit id c).workers} (ground arith) (
        refl,
        ground arith,
        h.2,
        ground (arith, mem-append j c.queue (id ∷ []), h.4 id, same_iff j id, same_iff id j),
        λ k. ground (arith, h.4 k, mem-append k c.queue (id ∷ [])),
      );
}
admit-IsConsistent c (v ∷ w ∷ ws) id e h o new_id = absurd (two c v w ws h)

enqueue-IsConsistent :
    (c : Crawler) (allowed : Bool) (id : Bytes)
    → IsConsistent c
    → IsConsistent (enqueue allowed id c)
unfolding enqueue
enqueue-IsConsistent c false id h = h
enqueue-IsConsistent c true id h = elim (Bool-cases (mem id c.queued || c.cancelled)) [
  | inl y ↦ rw y h
  | inr n ↦ rw n (admit-IsConsistent c c.workers id refl h.in_hand h.once (ground arith))
]

drained-IsConsistent : (c : Crawler) → IsConsistent (record (drained c) { workers = [] })
unfolding mem
drained-IsConsistent c = record { once = tt; in_hand = (refl, refl, refl, λ k. refl) }

take_next-IsConsistent :
    (c : Crawler) (queue : List Bytes)
    → c.queue ≡ queue
    → Once queue
    → InHand c (ready ∷ [])
    → IsConsistent (take_next [] [] queue c)
unfolding take_next
take_next-IsConsistent c [] e o h = drained-IsConsistent c
take_next-IsConsistent c (id ∷ rest) e o h = either c.cancelled
  where
    taken : Crawler
    taken = record c { queue = rest; current = id; workers = crawling id ∷ [] }

    either : (b : Bool) → IsConsistent (if b then record (drained c) { workers = [] } else taken)
    either true = drained-IsConsistent c
    either false = record {
      once = o.1;
      in_hand = (h.0, h.1, refl, o.0, λ k. h.2 k ∙ unfold mem in ap (mem k) e);
    }

finish-IsConsistent :
    (c : Crawler) (id : Bytes)
    → Once c.queue
    → InHand c (crawling id ∷ [])
    → IsConsistent (finish [] [] id c)
unfolding finish
finish-IsConsistent c id o h = record {
  once = o;
  in_hand = (
    h.0,
    h.1,
    λ k. ground (
      arith,
      mem-remove id k c.queued,
      h.4 k,
      h.3,
      same_iff id k,
      ap (λ j. mem j c.queue) {x = id} {y = k},
    ),
  );
}

InHand-cancel :
    (c : Crawler) (ws : List Worker) → InHand c ws → InHand (record c { cancelled = true }) ws
InHand-cancel c [] h = h
InHand-cancel c (ready ∷ []) h = h
InHand-cancel c (crawling id ∷ []) h = h
InHand-cancel c (v ∷ w ∷ ws) h = absurd (two c v w ws h)

Step-IsConsistent : {c d : Crawler} → Step c d → IsConsistent c → IsConsistent d
Step-IsConsistent (enqueues c allowed id) h = enqueue-IsConsistent c allowed id h
Step-IsConsistent (takes c before after e) h =
    let (b, a, hand) = alone c ready c.workers before after h.in_hand e in
    rw (b, a) (take_next-IsConsistent c c.queue refl h.once hand)
Step-IsConsistent (finishes c before after id e) h =
    let (b, a, hand) = alone c (crawling id) c.workers before after h.in_hand e in
    rw (b, a) (finish-IsConsistent c id h.once hand)
Step-IsConsistent (cancels c) h = record {
  once = h.once;
  in_hand = InHand-cancel c c.workers h.in_hand;
}

Reach-IsConsistent : {c : Crawler} → Reach c → IsConsistent c
Reach-IsConsistent start = IsConsistent-new
Reach-IsConsistent (next r s) = Step-IsConsistent s (Reach-IsConsistent r)

idle_empty :
    (c : Crawler) (ws : List Worker)
    → c.workers ≡ ws
    → InHand c ws
    → c.idle ≡ true
    → (c.workers ≡ []) × (c.queue ≡ []) × (c.running ≡ false)
idle_empty c [] e h i = (e, h.2, h.0)
idle_empty c (ready ∷ []) e h i = cc (h.1)
idle_empty c (crawling id ∷ []) e h i = cc (h.1)
idle_empty c (v ∷ w ∷ ws) e h i = absurd (two c v w ws h)

workers_bound : (c : Crawler) (ws : List Worker) → InHand c ws → length ws ≤ 1
workers_bound c [] h = omega arith
workers_bound c (w ∷ []) h = omega arith
workers_bound c (v ∷ w ∷ ws) h = absurd (two c v w ws h)

-- In every state that the goroutines and the callers can reach, however they interleave: at most
-- one goroutine processes the queue; no feed waits twice; the feed being crawled does not wait, and
-- is the one that Status shows; and the crawler is idle exactly when no goroutine runs, with
-- nothing waiting.
pub crawler_exclusive :
    {c : Crawler}
    → Reach c
    → (length c.workers ≤ 1)
      × Once c.queue
      × ((id : Bytes) → c.workers ≡ crawling id ∷ [] → (mem id c.queue ≡ false) × (c.current ≡ id))
      × (c.idle ≡ true → (c.workers ≡ []) × (c.queue ≡ []) × (c.running ≡ false))
      × (c.workers ≡ [] → c.idle ≡ true)
crawler_exclusive {c} r =
    let h = Reach-IsConsistent r in
    (
      workers_bound c c.workers h.in_hand,
      h.once,
      (λ id e.
          let hand : InHand c (crawling id ∷ []) = subst (InHand c) e h.in_hand in
          (hand.3, hand.2)),
      (λ i. idle_empty c c.workers refl h.in_hand i),
      (λ e. let hand : InHand c [] = subst (InHand c) e h.in_hand in hand.1),
    )

take_next-runs :
    (id : Bytes) (rest : List Bytes) (c : Crawler)
    → c.cancelled ≡ false
    → take_next [] [] (id ∷ rest) c
      ≡ record c { queue = rest; current = id; workers = crawling id ∷ [] }
unfolding take_next
take_next-runs id rest c h = ground arith

-- These feeds were crawled, and the crawler is idle.
abbrev HasCrawled : List Bytes → List Bytes × Crawler → Type 0
HasCrawled queue (ids, d) =
    (ids ≡ queue) × (d.running ≡ false) × (d.idle ≡ true) × (d.queue ≡ []) × (d.workers ≡ [])

-- With nothing else going on and no shutdown, the goroutine crawls the waiting feeds in their
-- order, each once, and then leaves the crawler idle: one round more than there are feeds is enough.
pub process_queue-order :
    (n : ℕ) (c : Crawler)
    → c.cancelled ≡ false
    → length c.queue < n
    → let (ids, d) = process_queue n c in
      (ids ≡ c.queue) × (d.running ≡ false) × (d.idle ≡ true) × (d.queue ≡ []) × (d.workers ≡ [])
unfolding process_queue
process_queue-order zero c h l = absurd (omega (arith, l))
process_queue-order (suc n) c h l = from (process_queue-order n) c.queue refl
  where
    round : List Bytes → List Bytes × Crawler
    round queue =
        let taken = take_next [] [] queue c in
        crawled taken.workers taken (λ id. process_queue n (finish [] [] id taken))

    from :
        ((d : Crawler)
          → d.cancelled ≡ false
          → length d.queue < n
          → HasCrawled d.queue (process_queue n d))
        → (queue : List Bytes) → c.queue ≡ queue
        → HasCrawled queue (round queue)
    from further [] e = unfold take_next in (refl, refl, refl, refl, refl)
    from further (id ∷ rest) e =
        let taken = record c { queue = rest; current = id; workers = crawling id ∷ [] } in
        let shorter : length rest < n = omega (arith, l, ap (length {A = Bytes}) e) in
        let later =
          further (finish [] [] id taken) (unfold finish in h) (unfold finish in shorter) in
        let (order, running, idle, queue, workers) = later in
        subst
          (λ t.
            HasCrawled (id ∷ rest) (crawled t.workers t (λ j. process_queue n (finish [] [] j t))))
          (sym (take_next-runs id rest c h)) (ap (◌∷◌ id) order, running, idle, queue, workers)
