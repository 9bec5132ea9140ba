-- ===== src/Feed/Cache/Races.antt =====
-- The requests of feeds around the cache, with the reads and the writes of the store in their steps:
-- between the version that a read takes and its two selects, and between the commit of a write and
-- the version that it moves, any others may come.
use kringkasting.Base.{ℕ, ◌≡◌, Option, List, [], ◌∷◌, ◌++◌, Bytes}
use kringkasting.Store.{Series, SeriesRow, Db, data_version, bump}
use kringkasting.Store.History.{Write}
use kringkasting.Store.Steps.{moved, commit, select_series, assemble_series}
use kringkasting.Feed.Cache.{CacheEntry, Cache, new_cache, peek, render_begin, render_end}
use kringkasting.Feed.Cache.Bounds.{
  IsConsistent, IsConsistent-new, get-IsConsistent, render_end-IsConsistent,
}
use kringkasting.Feed.Cache.Requests.{hold, pend}

-- A ReadSeries that is under way: it has the version, or the series as well.
pub data Reading : Type 0 where
  versioned : Bytes → ℕ → Reading
  selected : Bytes → ℕ → Option SeriesRow → Reading

-- `unbumped` are the feeds whose versions writes that are committed have still to move.
pub record World : Type 0 where
  pub db : Db
  pub unbumped : List Bytes
  pub readings : List Reading
  pub held : List Series
  pub pending : List CacheEntry
  pub cache : Cache

abbrev pub at_start : Db → World
at_start db = record {
  db = db;
  unbumped = [];
  readings = [];
  held = [];
  pending = [];
  cache = new_cache;
}

module _ (assemble : Series → Bytes → Bytes) (sha1_hex : Bytes → Bytes) where
  abbrev pub begin_in : Series → Bytes → ℕ → World → World
  begin_in s origin now w =
      let (answer, cache') = render_begin assemble sha1_hex s origin now w.cache in
      record w { pending = pend answer w.pending; cache = cache' }

  pub data Step : World → World → Type 0 where
    commits :
        (w : World) (change : Write)
        → Step w (record w { db = commit w.db change; unbumped = moved w.db change ++ w.unbumped })
    bumps :
        (w : World) (before after : List Bytes) (id : Bytes)
        → w.unbumped ≡ before ++ (id ∷ after)
        → Step w (record w { db = bump id w.db; unbumped = before ++ after })
    takes_version :
        (w : World) (id : Bytes)
        → Step w (record w { readings = versioned id (data_version id w.db) ∷ w.readings })
    selects_series :
        (w : World) (before after : List Reading) (id : Bytes) (version : ℕ)
        → w.readings ≡ before ++ (versioned id version ∷ after)
        → Step w (record w {
          readings = selected id version (select_series id w.db) ∷ (before ++ after);
        })
    selects_episodes :
        (w : World) (before after : List Reading) (id : Bytes) (version : ℕ)
        (row : Option SeriesRow)
        → w.readings ≡ before ++ (selected id version row ∷ after)
        → Step w (record w {
          readings = before ++ after;
          held = hold (assemble_series id row w.db version) w.held;
        })
    fetches : (w : World) (s : Series) → s.version ≡ 0 → Step w (record w { held = s ∷ w.held })
    peeks :
        (w : World) (id origin : Bytes) (version : ℕ)
        → Step w (record w { cache = (peek id origin version w.cache).1 })
    begins :
        (w : World) (before after : List Series) (s : Series) (origin : Bytes) (now : ℕ)
        → w.held ≡ before ++ (s ∷ after)
        → Step w (begin_in s origin now w)
    ends :
        (w : World) (before after : List CacheEntry) (e : CacheEntry)
        → w.pending ≡ before ++ (e ∷ after)
        → Step w (record w { pending = before ++ after; cache = (render_end e w.cache).1 })

  -- What can come about from a database, with an empty cache.
  pub data Reach (db : Db) : World → Type 0 where
    start : Reach db (at_start db)
    next : {v w : World} → Reach db v → Step v w → Reach db w

  Step-IsConsistent : {v w : World} → Step v w → IsConsistent v.cache → IsConsistent w.cache
  unfolding peek render_begin
  Step-IsConsistent (commits w change) h = h
  Step-IsConsistent (bumps w before after id e) h = h
  Step-IsConsistent (takes_version w id) h = h
  Step-IsConsistent (selects_series w before after id version e) h = h
  Step-IsConsistent (selects_episodes w before after id version row e) h = h
  Step-IsConsistent (fetches w s z) h = h
  Step-IsConsistent (peeks w id origin version) h = get-IsConsistent id w.cache h
  Step-IsConsistent (begins w before after s origin now e) h = get-IsConsistent s.id w.cache h
  Step-IsConsistent (ends w before after x e) h = render_end-IsConsistent x w.cache h

  pub Reach-IsConsistent : {db : Db} {w : World} → Reach db w → IsConsistent w.cache
  Reach-IsConsistent start = IsConsistent-new
  Reach-IsConsistent (next r s) = Step-IsConsistent s (Reach-IsConsistent r)
