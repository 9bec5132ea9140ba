-- ===== src/Feed/Cache/Requests.antt =====
-- The requests of feeds around the cache, in any order: series are read from the store, or come from
-- a fetch that was not stored, under the version 0; each may be rendered, by any number of requests
-- and for any origin; a request holds a document between the two sections of `Render`; and others
-- write to the store all the while.
use kringkasting.Base.{ℕ, ◌≡◌, Option, none, some, List, [], ◌∷◌, ◌++◌, Bytes}
use kringkasting.Store.{Series, Db}
use kringkasting.Store.Read.{read_series}
use kringkasting.Store.History.{Write, apply}
use kringkasting.Feed.Cache.{
  CacheEntry, Cache, new_cache, peek, render_begin, render_end, Begun, served, assembled,
}
use kringkasting.Feed.Cache.Bounds.{
  IsConsistent, IsConsistent-new, get-IsConsistent, render_end-IsConsistent,
}

pub record World : Type 0 where
  pub db : Db
  pub held : List Series
  pub pending : List CacheEntry
  pub cache : Cache

abbrev pub hold : Option Series → List Series → List Series
hold none held = held
hold (some s) held = s ∷ held

abbrev pub pend : Begun → List CacheEntry → List CacheEntry
pend (served r) pending = pending
pend (assembled e) pending = e ∷ pending

module _ (assemble : Series → Bytes → Bytes) (sha1_hex : Bytes → Bytes) where
  abbrev pub begin_in : Series → Bytes → ℕ → World → World
  begin_in s origin now w =
      let (answer, cache') = render_begin assemble sha1_hex s origin now w.cache in
      record w { pending = pend answer w.pending; cache = cache' }

  pub data Step : World → World → Type 0 where
    writes : (w : World) (change : Write) → Step w (record w { db = apply w.db change })
    reads :
        (w : World) (id : Bytes) → Step w (record w { held = hold (read_series id w.db) w.held })
    fetches : (w : World) (s : Series) → s.version ≡ 0 → Step w (record w { held = s ∷ w.held })
    peeks :
        (w : World) (id origin : Bytes) (version : ℕ)
        → Step w (record w { cache = (peek id origin version w.cache).1 })
    begins :
        (w : World) (before after : List Series) (s : Series) (origin : Bytes) (now : ℕ)
        → w.held ≡ before ++ (s ∷ after)
        → Step w (begin_in s origin now w)
    ends :
        (w : World) (before after : List CacheEntry) (e : CacheEntry)
        → w.pending ≡ before ++ (e ∷ after)
        → Step w (record w { pending = before ++ after; cache = (render_end e w.cache).1 })

  -- What can come about from a database, with an empty cache.
  pub data Reach (db : Db) : World → Type 0 where
    start : Reach db (record { db = db; held = []; pending = []; cache = new_cache })
    next : {v w : World} → Reach db v → Step v w → Reach db w

  Step-IsConsistent : {v w : World} → Step v w → IsConsistent v.cache → IsConsistent w.cache
  unfolding peek render_begin
  Step-IsConsistent (writes w change) h = h
  Step-IsConsistent (reads w id) h = h
  Step-IsConsistent (fetches w s z) h = h
  Step-IsConsistent (peeks w id origin version) h = get-IsConsistent id w.cache h
  Step-IsConsistent (begins w before after s origin now e) h = get-IsConsistent s.id w.cache h
  Step-IsConsistent (ends w before after x e) h = render_end-IsConsistent x w.cache h

  -- However the requests and the writes interleave, the cache leads from each key to one document,
  -- the one of that feed; it counts the bytes of all of them; and unless it is a single document it
  -- holds at most 500, of at most 64 MiB. It remembers the validators of at most 10,000 feeds.
  pub cache-IsConsistent : (db : Db) (w : World) → Reach db w → IsConsistent w.cache
  cache-IsConsistent db w start = IsConsistent-new
  cache-IsConsistent db w (next r s) = Step-IsConsistent s (cache-IsConsistent db _ r)
