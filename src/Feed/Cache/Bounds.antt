-- ===== src/Feed/Cache/Bounds.antt =====
-- The cache keeps its books, and its bounds, in every order of the sections of its operations.
use mathlib.Core.Path.{subst}
use kringkasting.Base.{
  ◌*◌, ◌⊎◌, ltb, ℕ, zero, suc, ◌+◌, ◌≤◌, ◌≡◌, refl, sym, inl, inr, true, false, Option, none, some,
  [], ◌∷◌, arith, ◌==◌, Bool-cases, Option-cases, length, Bytes,
}
use kringkasting.Base.Map.{Map, lookup, is_some, length-insert-le, length-insert_present, mem}
use kringkasting.Feed.Cache.{
  CacheEntry, Cache, Validator, new_cache, max_cache_entries, max_cache_bytes, max_validators, get,
  element, to_front, render_end, render_current, superseded, remember, place, place_at, put, over,
  back, evict_entry, evict,
}
use kringkasting.Feed.Cache.Elements.{total, total-drop_back}
use kringkasting.Feed.Cache.Books.{
  IsIndexed, element-lookup, front-total, front-IsIndexed, place-IsIndexed, remember-IsIndexed,
  evict_entry-IsIndexed,
}

abbrev pub IsLimited : Cache → Type 0
IsLimited c = (c.max_entries ≡ max_cache_entries) × (c.max_bytes ≡ max_cache_bytes)

-- A single document, however large, or at most 500 of at most 64 MiB.
abbrev pub IsWithin : Cache → Type 0
IsWithin c = (length c.lru ≤ 1) ⊎ ((length c.lru ≤ 500) × (c.bytes ≤ 64 * 1024 * 1024))

-- With it the limits: the last document may be large, all others leave when there are too many.
pub record IsConsistent (c : Cache) : Type 0 where
  pub limited : IsLimited c
  pub indexed : IsIndexed c
  pub within : IsWithin c
  pub remembered : length c.validators ≤ max_validators

over-IsWithin : (c : Cache) → IsLimited c → over c ≡ false → IsWithin c
unfolding over
over-IsWithin c l h = elim (Bool-cases (ltb 1 (length c.lru))) [
  | inl many ↦ inr (ground (arith, h, many, l.0, l.1), ground (arith, h, many, l.0, l.1))
  | inr one ↦ inl (ground (arith, one))
]

-- A use of a document moves its element.
pub to_front-IsConsistent :
    (k : Bytes) (c : Cache) (o : Option CacheEntry)
    → IsConsistent c
    → lookup k c.lru ≡ o
    → IsConsistent ((to_front k o c).1)
unfolding over
to_front-IsConsistent k c none h e = h
to_front-IsConsistent k c (some x) h e = record {
  indexed =
      front-IsIndexed k x c h.indexed (h.indexed.keyed k x e).0 (h.indexed.keyed k x e).1 x c.bytes
        e (omega (arith, h.indexed.counted, front-total k x x c.lru h.indexed.distinct e));
  within =
      let same_length = front-total k x x c.lru h.indexed.distinct e in
      elim h.within [
        | inl one ↦ inl (ground (arith, one, same_length))
        | inr within ↦ inr (ground (arith, within.0, same_length), within.1)
      ];
  remembered = h.remembered;
  limited = h.limited;
}

pub get-IsConsistent : (k : Bytes) (c : Cache) → IsConsistent c → IsConsistent ((get k c).1)
unfolding get
get-IsConsistent k c h =
    rw (element-lookup k c h.indexed) (to_front-IsConsistent k c (lookup k c.lru) h refl)

remember-bound :
    (k : Bytes) (e : CacheEntry) (c : Cache)
    → length c.validators ≤ max_validators
    → length (remember k e c).validators ≤ max_validators
unfolding remember
remember-bound k e c h =
    let v : Validator = record {
      etag = e.rendered.etag;
      last_modified = e.rendered.last_modified;
    } in
    ground (
      arith,
      length-insert-le k v c.validators,
      length-insert-le k v [],
      length-insert_present k v c.validators,
    )

back-none : (m : Map CacheEntry) → back m ≡ none → length m ≡ 0
unfolding back
back-none [] h = refl
back-none ((k, e) ∷ []) h = cc
back-none ((k, e) ∷ (p ∷ m)) h = ground (arith, back-none (p ∷ m) h)

-- A round of the eviction loop leaves one element fewer.
length-evict_entry :
    (c : Cache) → over c ≡ true → length (evict_entry (back c.lru) c).lru + 1 ≡ length c.lru
unfolding over
length-evict_entry c h = elim (Option-cases (back c.lru)) [
  | inl e ↦ ground (arith, back-none c.lru e)
  | inr (x, e) ↦ rw e (total-drop_back x c.lru e).1
]

pub evict_entry-validators :
    (o : Option CacheEntry) (c : Cache) → (evict_entry o c).validators ≡ c.validators
evict_entry-validators none c = refl
evict_entry-validators (some e) c = refl

pub place-validators :
    (k : Bytes) (e : CacheEntry) (c : Cache) → (place k e c).validators ≡ c.validators
unfolding place
place-validators k e c = go (element k c)
  where
    go : (o : Option CacheEntry) → (place_at k e o c).validators ≡ c.validators
    go none = refl
    go (some f) = refl

evict_entry-limits : (o : Option CacheEntry) (c : Cache) → IsLimited c → IsLimited (evict_entry o c)
evict_entry-limits none c h = h
evict_entry-limits (some e) c h = h

place-limits : (k : Bytes) (e : CacheEntry) (c : Cache) → IsLimited c → IsLimited (place k e c)
unfolding place
place-limits k e c h = go (element k c)
  where
    go : (o : Option CacheEntry) → IsLimited (place_at k e o c)
    go none = h
    go (some f) = h

evict-IsConsistent :
    (n : ℕ) (c : Cache)
    → IsIndexed c
    → length c.lru ≤ n
    → length c.validators ≤ max_validators
    → IsLimited c
    → IsConsistent (evict n c)
unfolding evict
evict-IsConsistent zero c i h v l = record {
  indexed = i;
  within = over-IsWithin c l (unfold over in ground arith);
  remembered = v;
  limited = l;
}
evict-IsConsistent (suc n) c i h v l = elim (Bool-cases (over c)) [
  | inl e ↦ rw e (
      evict-IsConsistent n (evict_entry (back c.lru) c)
        (evict_entry-IsIndexed c (back c.lru) refl i) (omega (arith, length-evict_entry c e))
        (subst (λ vs. length vs ≤ max_validators) (sym (evict_entry-validators (back c.lru) c)) v)
        (evict_entry-limits (back c.lru) c l))
  | inr e ↦ rw e (record { indexed = i; within = over-IsWithin c l e; remembered = v; limited = l })
]

pub put-IsConsistent :
    (e : CacheEntry) (c : Cache) → IsConsistent c → 1 ≤ e.version → IsConsistent (put e c)
put-IsConsistent e c h v =
    let remembered = remember e.key e c in
    let placed = place e.key e remembered in
    evict-IsConsistent (length placed.lru) placed
      (place-IsIndexed e.key e remembered (remember-IsIndexed e.key e c h.indexed) refl v)
      (omega arith)
      (subst (λ vs. length vs ≤ max_validators) (sym (place-validators e.key e remembered))
        (remember-bound e.key e c h.remembered))
      (place-limits e.key e remembered (unfold remember in h.limited))

render_current-IsConsistent :
    (e : CacheEntry) (o : Option CacheEntry) (c : Cache)
    → IsConsistent c
    → 1 ≤ e.version
    → IsConsistent (render_current e (o, c)).1
unfolding render_current
render_current-IsConsistent e none c h v = put-IsConsistent e c h v
render_current-IsConsistent e (some x) c h v = elim (Bool-cases (superseded e (some x))) [
  | inl s ↦ rw s h
  | inr n ↦ rw n (put-IsConsistent e c h v)
]

pub render_end-IsConsistent :
    (e : CacheEntry) (c : Cache) → IsConsistent c → IsConsistent (render_end e c).1
unfolding render_end
render_end-IsConsistent e c h = elim (Bool-cases (e.version == 0)) [
  | inl z ↦ rw z h
  | inr n ↦ rw n (
      render_current-IsConsistent e (get e.key c).0 (get e.key c).1 (get-IsConsistent e.key c h)
        (ground arith))
]

pub IsConsistent-new : IsConsistent new_cache
unfolding over mem lookup is_some total
IsConsistent-new = record {
  limited = (refl, refl);
  indexed = record { distinct = tt; index = λ k. refl; keyed = λ k e h. cc; counted = refl };
  within = inl (omega arith);
  remembered = omega arith;
}
