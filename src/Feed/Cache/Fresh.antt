-- ===== src/Feed/Cache/Fresh.antt =====
-- The cache never serves a document that the store has moved on from.
use mathlib.Core.Path.{subst}
use kringkasting.Base.{
  ℕ, ◌≡◌, refl, sym, ap, ◌∙◌, ◌⊎◌, inl, inr, false, ◌&&◌, Option, none, some, List, ◌∷◌, ◌++◌,
  arith, leb, Bool-cases, All, Bytes, same, same_iff, All-middle, All-map,
}
use kringkasting.Base.Map.{lookup, mem}
use kringkasting.Store.{Series, SeriesRow, Db, data_version, bump}
use kringkasting.Store.Read.{read_series}
use kringkasting.Store.Steps.{moved, commit, assemble_series}
use kringkasting.Store.Shown.{SameShown}
use kringkasting.Feed.Cache.{
  Rendered, CacheEntry, Validator, get, peek, peeked, element, to_front, render_begin, render_entry,
  begun,
}
use kringkasting.Feed.Cache.Kept.{
  EveryEntry, EveryEntry-element, get-EveryEntry, render_end-EveryEntry,
}
use kringkasting.Feed.Cache.Requests.{hold, pend}
use kringkasting.Feed.Cache.Races.{
  Reading, versioned, selected, World, Step, commits, bumps, takes_version, selects_series,
  selects_episodes, fetches, peeks, begins, ends, Reach, start, next, Reach-IsConsistent,
}
use kringkasting.Feed.Cache.AsOf.{
  IsAsOf, commit-IsAsOf, bump-IsAsOf, WasRead, WasSelected, take-WasTaken, select-WasSelected,
  assemble-WasRead,
}
use kringkasting.Feed.Cache.Survives.{
  IsUnderWay, Held, WasRead-survives, IsUnderWay-survives, Held-survives,
}

module _ (assemble : Series → Bytes → Bytes) (sha1_hex : Bytes → Bytes) where
  -- The document of a series that was read.
  record IsMade (db : Db) (un : List Bytes) (e : CacheEntry) : Type 0 where
    source : Series
    read : WasRead source db un
    of_feed : e.key ≡ source.id
    of_version : e.version ≡ source.version
    document : e.rendered.xml ≡ assemble source e.origin

  abbrev Pends : Db → List Bytes → CacheEntry → Type 0
  Pends db un e = IsMade db un e ⊎ (e.version ≡ 0)

  -- What requests hold was read, or is of version 0; what the cache holds was read.
  record IsFresh (w : World) : Type 0 where
    under_way : All (IsUnderWay w.db w.unbumped) w.readings
    held : All (Held w.db w.unbumped) w.held
    pending : All (Pends w.db w.unbumped) w.pending
    cached : EveryEntry (IsMade w.db w.unbumped) w.cache.lru

  module _ (v w : World)
      (survives : (P : Db → Type 0) (id : Bytes) (version : ℕ)
        → ((a b : Db) → SameShown id a b → P a → P b)
        → IsAsOf P id version v.db v.unbumped
        → IsAsOf P id version w.db w.unbumped) where
    IsMade-survives : (e : CacheEntry) → IsMade v.db v.unbumped e → IsMade w.db w.unbumped e
    IsMade-survives e m = record {
      source = m.source;
      read = WasRead-survives v.db w.db v.unbumped w.unbumped survives m.source m.read;
      of_feed = m.of_feed;
      of_version = m.of_version;
      document = m.document;
    }

    Pends-survives : (e : CacheEntry) → Pends v.db v.unbumped e → Pends w.db w.unbumped e
    Pends-survives e (inl m) = inl (IsMade-survives e m)
    Pends-survives e (inr z) = inr z

    IsFresh-survives : w ≡ record v { db = w.db; unbumped = w.unbumped } → IsFresh v → IsFresh w
    IsFresh-survives e h = subst IsFresh (sym e) (record {
      under_way =
          All-map (IsUnderWay v.db v.unbumped) (IsUnderWay w.db w.unbumped)
            (IsUnderWay-survives v.db w.db v.unbumped w.unbumped survives) v.readings h.under_way;
      held =
          All-map (Held v.db v.unbumped) (Held w.db w.unbumped)
            (Held-survives v.db w.db v.unbumped w.unbumped survives) v.held h.held;
      pending =
          All-map (Pends v.db v.unbumped) (Pends w.db w.unbumped) Pends-survives v.pending
            h.pending;
      cached =
          All-map (λ (p : Bytes × CacheEntry). IsMade v.db v.unbumped p.1)
            (λ (p : Bytes × CacheEntry). IsMade w.db w.unbumped p.1) (λ p. IsMade-survives p.1)
            v.cache.lru h.cached;
    })

  hold-Held :
      (db : Db) (un : List Bytes) (id : Bytes) (version : ℕ) (row : Option SeriesRow)
      (o : Option Series) (ss : List Series)
      → WasSelected id version row db un
      → assemble_series id row db version ≡ o
      → All (Held db un) ss
      → All (Held db un) (hold o ss)
  hold-Held db un id version row none ss t e h = h
  hold-Held db un id version row (some s) ss t e h =
      (inl (assemble-WasRead id version row db un s t e), h)

  made :
      (db : Db) (un : List Bytes) (s : Series) (origin : Bytes) (o : Option Validator) (now : ℕ)
      → Held db un s
      → Pends db un (render_entry assemble sha1_hex s origin o now)
  made db un s origin o now (inl r) =
      inl (record { source = s; read = r; of_feed = refl; of_version = refl; document = refl })
  made db un s origin o now (inr z) = inr z

  pend-Pends :
      (db : Db) (un : List Bytes) (s : Series) (origin : Bytes) (now : ℕ) (o : Option Validator)
      (cached : Option CacheEntry) (es : List CacheEntry)
      → Held db un s
      → All (Pends db un) es
      → All (Pends db un) (pend (begun assemble sha1_hex s origin now o cached) es)
  pend-Pends db un s origin now o none es h a = (made db un s origin o now h, a)
  pend-Pends db un s origin now o (some e) es h a =
      elim (Bool-cases (same e.origin origin && leb s.version e.version)) [
        | inl y ↦ rw y a
        | inr n ↦ rw n (made db un s origin o now h, a)
      ]

  middle :
      (w : World) (before after : List CacheEntry) (x : CacheEntry)
      → w.pending ≡ before ++ (x ∷ after)
      → IsFresh w
      → Pends w.db w.unbumped x × All (Pends w.db w.unbumped) (before ++ after)
  middle w before after x e h =
      All-middle (Pends w.db w.unbumped) before after x
        (subst (All (Pends w.db w.unbumped)) e h.pending)

  -- A read under way, with the others.
  reading :
      (w : World) (before after : List Reading) (r : Reading)
      → w.readings ≡ before ++ (r ∷ after)
      → IsFresh w
      → IsUnderWay w.db w.unbumped r × All (IsUnderWay w.db w.unbumped) (before ++ after)
  reading w before after r e h =
      All-middle (IsUnderWay w.db w.unbumped) before after r
        (subst (All (IsUnderWay w.db w.unbumped)) e h.under_way)

  Step-IsFresh : {v w : World} → Step assemble sha1_hex v w → IsFresh v → IsFresh w
  Step-IsFresh (commits w change) h =
      IsFresh-survives w
        (record w { db = commit w.db change; unbumped = moved w.db change ++ w.unbumped })
        (λ P id version stable a. commit-IsAsOf P id version stable w.db w.unbumped change a) refl h
  Step-IsFresh (bumps w before after k e) h =
      IsFresh-survives w (record w { db = bump k w.db; unbumped = before ++ after })
        (λ P id version stable a.
          bump-IsAsOf P id version stable w.db before after k
            (subst (IsAsOf P id version w.db) e a))
        refl h
  Step-IsFresh (takes_version w id) h = record {
    under_way = (take-WasTaken id w.db w.unbumped, h.under_way);
    held = h.held;
    pending = h.pending;
    cached = h.cached;
  }
  Step-IsFresh (selects_series w before after id version e) h =
      let (taken, others) = reading w before after (versioned id version) e h in
      record {
        under_way = (select-WasSelected id version w.db w.unbumped taken, others);
        held = h.held;
        pending = h.pending;
        cached = h.cached;
      }
  Step-IsFresh (selects_episodes w before after id version row e) h =
      let (found, others) = reading w before after (selected id version row) e h in
      record {
        under_way = others;
        held =
            hold-Held w.db w.unbumped id version row (assemble_series id row w.db version) w.held
              found refl h.held;
        pending = h.pending;
        cached = h.cached;
      }
  Step-IsFresh (fetches w s z) h = record {
    under_way = h.under_way;
    held = (inr z, h.held);
    pending = h.pending;
    cached = h.cached;
  }
  Step-IsFresh (peeks w id origin version) h = record {
    under_way = h.under_way;
    held = h.held;
    pending = h.pending;
    cached = unfold peek in get-EveryEntry (IsMade w.db w.unbumped) id w.cache h.cached;
  }
  Step-IsFresh (begins w before after s origin now e) h = record {
    under_way = h.under_way;
    held = h.held;
    pending =
        unfold render_begin in
        pend-Pends w.db w.unbumped s origin now (lookup s.id (get s.id w.cache).1.validators)
          (get s.id w.cache).0 w.pending
          (All-middle (Held w.db w.unbumped) before after s
            (subst (All (Held w.db w.unbumped)) e h.held)).0
          h.pending;
    cached = unfold render_begin in get-EveryEntry (IsMade w.db w.unbumped) s.id w.cache h.cached;
  }
  Step-IsFresh (ends w before after x e) h = record {
    under_way = h.under_way;
    held = h.held;
    pending = (middle w before after x e h).1;
    cached =
        render_end-EveryEntry (IsMade w.db w.unbumped) x w.cache h.cached
          (middle w before after x e h).0;
  }

  Reach-IsFresh : {db : Db} {w : World} → Reach assemble sha1_hex db w → IsFresh w
  Reach-IsFresh start = record { under_way = tt; held = tt; pending = tt; cached = tt }
  Reach-IsFresh (next r s) = Step-IsFresh s (Reach-IsFresh r)

  -- An entry that answers at the version of the store shows what the store does.
  entry-fresh :
      (db : Db) (un : List Bytes) (id origin : Bytes) (e : CacheEntry) (r : Rendered)
      → IsMade db un e
      → e.key ≡ id
      → mem id un ≡ false
      → peeked origin (data_version id db) (some e) ≡ some r
      → (s : Series) × (a : Db) × (read_series id a ≡ some s)
        × (r.xml ≡ assemble s origin)
        × SameShown id a db
  entry-fresh db un id origin e r m k settled h =
      let found : (e.origin ≡ origin) × (e.version ≡ data_version id db) × (e.rendered ≡ r) =
        ground (arith, h, same_iff e.origin origin) in
      let named : m.source.id ≡ id = sym m.of_feed ∙ k in
      (
        m.source,
        m.read.source,
        subst (λ i. read_series i m.read.source ≡ some m.source) named m.read.read,
        ap (λ (x : Rendered). x.xml) (sym found.2) ∙ m.document ∙ ap (assemble m.source) found.0,
        subst (λ i. SameShown i m.read.source db) named
            (m.read.as_of.holds (ap (λ i. data_version i db) named ∙ sym found.1 ∙ m.of_version)
              (ap (λ i. mem i un) named ∙ settled)),
      )

  -- Whatever the cache answers a poll with, at the version that the store has for the feed, is the
  -- document for that origin of a series that shows of the feed what the store shows now, unless a
  -- write of the feed is between its commit and the move of the version; however the requests, the
  -- selects of the reads and the commits of the writes came together before.
  pub peek-fresh :
      (db : Db) (w : World) (id origin : Bytes) (r : Rendered)
      → Reach assemble sha1_hex db w
      → mem id w.unbumped ≡ false
      → (peek id origin (data_version id w.db) w.cache).0 ≡ some r
      → (s : Series) × (a : Db) × (read_series id a ≡ some s)
        × (r.xml ≡ assemble s origin)
        × SameShown id a w.db
  unfolding peek
  peek-fresh db w id origin r reach settled h = answer (element id w.cache) refl h
    where
      fresh : IsFresh w
      fresh = Reach-IsFresh reach

      answer :
          (o : Option CacheEntry)
          → element id w.cache ≡ o
          → peeked origin (data_version id w.db) (to_front id o w.cache).0 ≡ some r
          → (s : Series) × (a : Db) × (read_series id a ≡ some s)
            × (r.xml ≡ assemble s origin)
            × SameShown id a w.db
      answer none e h = absurd (ground (arith, h))
      answer (some x) e h =
          entry-fresh w.db w.unbumped id origin x r
            (EveryEntry-element (IsMade w.db w.unbumped) id x w.cache fresh.cached e)
            ((Reach-IsConsistent assemble sha1_hex reach).indexed.keyed id x (ground (arith, e))).0
            settled h
