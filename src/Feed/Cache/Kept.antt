-- ===== src/Feed/Cache/Kept.antt =====
-- What holds of every entry that is put into the cache holds of every entry in it.
use mathlib.Core.Path.{subst}
use kringkasting.Base.{
  ℕ, zero, suc, ◌≡◌, refl, ◌⊎◌, inl, inr, Option, none, some, [], ◌∷◌, arith, ◌==◌, Bool-cases, All,
  Bytes, same,
}
use kringkasting.Base.Map.{Map, lookup, delete}
use kringkasting.Feed.Cache.{
  CacheEntry, Cache, get, element, to_front, render_end, render_current, put, place, place_at,
  remember, evict, evict_entry, drop_back, back, superseded, over,
}

module _ (P : CacheEntry → Type 0) where
  abbrev pub EveryEntry : Map CacheEntry → Type 0
  EveryEntry m = All (λ (p : Bytes × CacheEntry). P p.1) m

  pub EveryEntry-lookup :
      (k : Bytes) (e : CacheEntry) (m : Map CacheEntry) → EveryEntry m → lookup k m ≡ some e → P e
  unfolding lookup
  EveryEntry-lookup k e [] a h = cc
  EveryEntry-lookup k e ((j, f) ∷ m) a h = elim (Bool-cases (same j k)) [
    | inl s ↦ subst P {x = f} {y = e} (ground (arith, h, s)) a.0
    | inr n ↦ EveryEntry-lookup k e m a.1 (ground (arith, h))
  ]

  EveryEntry-delete : (k : Bytes) (m : Map CacheEntry) → EveryEntry m → EveryEntry (delete k m)
  unfolding delete
  EveryEntry-delete k [] a = tt
  EveryEntry-delete k ((j, f) ∷ m) a = elim (Bool-cases (same j k)) [
    | inl s ↦ rw s (EveryEntry-delete k m a.1)
    | inr n ↦ rw n (a.0, EveryEntry-delete k m a.1)
  ]

  EveryEntry-drop_back : (m : Map CacheEntry) → EveryEntry m → EveryEntry (drop_back m)
  unfolding drop_back
  EveryEntry-drop_back [] a = tt
  EveryEntry-drop_back ((k, f) ∷ []) a = tt
  EveryEntry-drop_back ((k, f) ∷ (p ∷ m)) a = (a.0, EveryEntry-drop_back (p ∷ m) a.1)

  pub EveryEntry-element :
      (k : Bytes) (e : CacheEntry) (c : Cache) → EveryEntry c.lru → element k c ≡ some e → P e
  EveryEntry-element k e c a h = EveryEntry-lookup k e c.lru a (ground (arith, h))

  to_front-EveryEntry :
      (k : Bytes) (o : Option CacheEntry) (c : Cache)
      → EveryEntry c.lru
      → element k c ≡ o
      → EveryEntry (to_front k o c).1.lru
  to_front-EveryEntry k none c a h = a
  to_front-EveryEntry k (some e) c a h = (EveryEntry-element k e c a h, EveryEntry-delete k c.lru a)

  pub get-EveryEntry : (k : Bytes) (c : Cache) → EveryEntry c.lru → EveryEntry (get k c).1.lru
  unfolding get
  get-EveryEntry k c a = to_front-EveryEntry k (element k c) c a refl

  place_at-EveryEntry :
      (k : Bytes) (e : CacheEntry) (o : Option CacheEntry) (c : Cache)
      → EveryEntry c.lru
      → P e
      → EveryEntry (place_at k e o c).lru
  place_at-EveryEntry k e none c a p = (p, a)
  place_at-EveryEntry k e (some f) c a p = (p, EveryEntry-delete k c.lru a)

  evict_entry-EveryEntry :
      (o : Option CacheEntry) (c : Cache) → EveryEntry c.lru → EveryEntry (evict_entry o c).lru
  evict_entry-EveryEntry none c a = a
  evict_entry-EveryEntry (some e) c a = EveryEntry-drop_back c.lru a

  evict-EveryEntry : (n : ℕ) (c : Cache) → EveryEntry c.lru → EveryEntry (evict n c).lru
  unfolding evict
  evict-EveryEntry zero c a = a
  evict-EveryEntry (suc n) c a = elim (Bool-cases (over c)) [
    | inl o ↦
        rw o (
          evict-EveryEntry n (evict_entry (back c.lru) c) (evict_entry-EveryEntry (back c.lru) c a))
    | inr o ↦ rw o a
  ]

  put-EveryEntry : (e : CacheEntry) (c : Cache) → EveryEntry c.lru → P e → EveryEntry (put e c).lru
  unfolding place remember
  put-EveryEntry e c a p =
      evict-EveryEntry _ (place e.key e (remember e.key e c))
        (place_at-EveryEntry e.key e (element e.key (remember e.key e c)) (remember e.key e c) a p)

  render_current-EveryEntry :
      (e : CacheEntry) (o : Option CacheEntry) (c : Cache)
      → EveryEntry c.lru
      → P e
      → EveryEntry (render_current e (o, c)).1.lru
  unfolding render_current
  render_current-EveryEntry e none c a p = put-EveryEntry e c a p
  render_current-EveryEntry e (some x) c a p = elim (Bool-cases (superseded e (some x))) [
    | inl s ↦ rw s a
    | inr n ↦ rw n (put-EveryEntry e c a p)
  ]

  pub render_end-EveryEntry :
      (e : CacheEntry) (c : Cache)
      → EveryEntry c.lru
      → P e ⊎ (e.version ≡ 0)
      → EveryEntry (render_end e c).1.lru
  unfolding render_end
  render_end-EveryEntry e c a (inl p) = elim (Bool-cases (e.version == 0)) [
    | inl z ↦ rw z a
    | inr n ↦
        rw n
          (render_current-EveryEntry e (get e.key c).0 (get e.key c).1 (get-EveryEntry e.key c a) p)
  ]
  render_end-EveryEntry e c a (inr z) = rw z a
