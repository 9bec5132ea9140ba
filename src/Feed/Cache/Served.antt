-- ===== src/Feed/Cache/Served.antt =====
-- What `Render` puts in is there for the next poll.
use mathlib.Core.Path.{subst}
use kringkasting.Base.{
  ℕ, zero, suc, ◌≤◌, ◌<◌, ◌≡◌, refl, inl, inr, true, false, Option, none, some, [], ◌∷◌, arith,
  ◌==◌, Bool-cases, length, Bytes, same_iff, same_refl,
}
use kringkasting.Base.Map.{Map, lookup}
use kringkasting.Store.{Series, Db}
use kringkasting.Feed.Cache.{
  Rendered, CacheEntry, Cache, get, peek, element, render_end, render_current, put, place, place_at,
  remember, evict, evict_entry, drop_back, back, superseded, over,
}
use kringkasting.Feed.Cache.Books.{IsIndexed, element-lookup, get-lookup}
use kringkasting.Feed.Cache.Bounds.{IsConsistent, get-IsConsistent, put-IsConsistent}
use kringkasting.Feed.Cache.Requests.{World, Reach, cache-IsConsistent}

-- The most recently used element is never evicted.
abbrev IsFirst : Bytes → CacheEntry → Map CacheEntry → Type 0
IsFirst k e [] = ⊥
IsFirst k e ((j, f) ∷ m) = (j ≡ k) × (f ≡ e)

IsFirst-lookup :
    (k : Bytes) (e : CacheEntry) (m : Map CacheEntry) → IsFirst k e m → lookup k m ≡ some e
unfolding lookup
IsFirst-lookup k e [] h = absurd h
IsFirst-lookup k e ((j, f) ∷ m) h = ground (arith, h.0, h.1, same_iff j k)

drop_back-IsFirst :
    (k : Bytes) (e : CacheEntry) (m : Map CacheEntry)
    → 1 < length m
    → IsFirst k e m
    → IsFirst k e (drop_back m)
unfolding drop_back
drop_back-IsFirst k e [] l h = h
drop_back-IsFirst k e ((j, f) ∷ []) l h = absurd (omega (arith, l))
drop_back-IsFirst k e ((j, f) ∷ (p ∷ m)) l h = h

evict_entry-IsFirst :
    (k : Bytes) (e : CacheEntry) (o : Option CacheEntry) (c : Cache)
    → over c ≡ true
    → IsFirst k e c.lru
    → IsFirst k e (evict_entry o c).lru
unfolding over
evict_entry-IsFirst k e none c v h = h
evict_entry-IsFirst k e (some x) c v h = drop_back-IsFirst k e c.lru (ground (arith, v)) h

evict-IsFirst :
    (n : ℕ) (k : Bytes) (e : CacheEntry) (c : Cache)
    → IsFirst k e c.lru
    → IsFirst k e (evict n c).lru
unfolding evict
evict-IsFirst zero k e c h = h
evict-IsFirst (suc n) k e c h = elim (Bool-cases (over c)) [
  | inl o ↦ rw o (
      evict-IsFirst n k e (evict_entry (back c.lru) c) (evict_entry-IsFirst k e (back c.lru) c o h))
  | inr o ↦ rw o h
]

place-IsFirst : (k : Bytes) (e : CacheEntry) (c : Cache) → IsFirst k e (place k e c).lru
unfolding place
place-IsFirst k e c = go (element k c)
  where
    go : (o : Option CacheEntry) → IsFirst k e (place_at k e o c).lru
    go none = (refl, refl)
    go (some f) = (refl, refl)

-- An entry under its key answers a poll for its origin and version.
peek-entry :
    (k : Bytes) (e : CacheEntry) (c : Cache)
    → IsIndexed c
    → lookup k c.lru ≡ some e
    → (peek k e.origin e.version c).0 ≡ some e.rendered
unfolding peek get
peek-entry k e c i h = rw (element-lookup k c i) (rw h (rw same_refl (ground arith)))

abbrev Answers : CacheEntry → Rendered × Cache → Type 0
Answers e (r, c) = (v : ℕ) × (e.version ≤ v) × ((peek e.key e.origin v c).0 ≡ some r)

put-Answers : (e : CacheEntry) (c : Cache) → IsIndexed (put e c) → Answers e (e.rendered, put e c)
put-Answers e c i = (
  e.version,
  omega arith,
  peek-entry e.key e (put e c) i (
      IsFirst-lookup e.key e (put e c).lru (
        evict-IsFirst _ e.key e (place e.key e (remember e.key e c))
          (place-IsFirst e.key e (remember e.key e c)))),
)

render_current-Answers :
    (e : CacheEntry) (o : Option CacheEntry) (c : Cache)
    → IsConsistent c
    → 1 ≤ e.version
    → lookup e.key c.lru ≡ o
    → Answers e (render_current e (o, c))
unfolding render_current
render_current-Answers e none c h n l = put-Answers e c (put-IsConsistent e c h n).indexed
render_current-Answers e (some x) c h n l = elim (Bool-cases (superseded e (some x))) [
  | inl s ↦ rw s (
    x.version,
    ground (arith, s),
    subst (λ o. (peek e.key o x.version c).0 ≡ some x.rendered)
        ((same_iff x.origin e.origin).0 (ground (arith, s))) (peek-entry e.key x c h.indexed l),
  )
  | inr s ↦ rw s (put-Answers e c (put-IsConsistent e c h n).indexed)
]

-- In every state that the requests can reach: once the second section of `Render` has run on a
-- document of a stored series, a poll for its feed and origin is answered with what `Render`
-- returned, at the version of the document or a later one.
pub peek-render_end :
    (assemble : Series → Bytes → Bytes) (sha1_hex : Bytes → Bytes) (db : Db) (w : World)
    (e : CacheEntry)
    → Reach assemble sha1_hex db w
    → 1 ≤ e.version
    → (v : ℕ) × (e.version ≤ v)
      × ((peek e.key e.origin v (render_end e w.cache).1).0 ≡ some (render_end e w.cache).0)
unfolding render_end
peek-render_end assemble sha1_hex db w e reach n =
    let h = cache-IsConsistent assemble sha1_hex db w reach in
    rw (stored n) (
      render_current-Answers e (get e.key w.cache).0 (get e.key w.cache).1
        (get-IsConsistent e.key w.cache h) n (get-lookup e.key w.cache h.indexed))
  where
    stored : 1 ≤ e.version → (e.version == 0) ≡ false
    stored n = ground arith
