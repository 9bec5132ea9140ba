-- ===== src/Feed/Cache/Books.antt =====
-- What the map, the list and the byte count of the cache have to do with each other.
use kringkasting.Base.{
  ℕ, ◌+◌, ◌≤◌, ◌≡◌, refl, ap, inl, inr, Option, none, some, ◌∷◌, arith, if◌then◌else◌, Option-cases,
  length, Bytes, same, same_iff, same_refl,
}
use kringkasting.Base.Map.{
  Map, lookup, delete, is_some, lookup-delete, mem, lookup-delete_self, Distinct, mem-remove,
}
use kringkasting.Feed.Cache.{
  CacheEntry, Cache, get, element, to_front, remember, place, back, evict_entry,
}
use kringkasting.Feed.Cache.Elements.{
  total, delete-Distinct, total-delete, back_key, lookup-back_key, lookup-drop_back,
  drop_back-Distinct, total-drop_back,
}

-- The map leads to the elements of the list, one for each key, each under the key of its entry; the
-- bytes are those of all documents; and no document is cached under the version 0.
pub record IsIndexed (c : Cache) : Type 0 where
  pub distinct : Distinct c.lru
  pub index : (k : Bytes) → mem k c.entries ≡ is_some (lookup k c.lru)
  pub keyed : (k : Bytes) (e : CacheEntry) → lookup k c.lru ≡ some e → (e.key ≡ k) × (1 ≤ e.version)
  pub counted : c.bytes ≡ total c.lru

-- The list with an element put first under its key.
module _ (k : Bytes) (e f : CacheEntry) (m : Map CacheEntry) (d : Distinct m) where
  front-Distinct : Distinct ((k, e) ∷ delete k m)
  unfolding is_some
  front-Distinct = (rw lookup-delete_self, delete-Distinct k m d)

  pub front-lookup :
      (j : Bytes) → lookup j ((k, e) ∷ delete k m) ≡ (if same k j then some e else lookup j m)
  unfolding lookup
  front-lookup j = ground (arith, lookup-delete k j m)

  pub front-total :
      lookup k m ≡ some f
      → (total ((k, e) ∷ delete k m) + length f.rendered.xml ≡ total m + length e.rendered.xml)
        × (length ((k, e) ∷ delete k m) ≡ length m)
  unfolding total
  front-total h = omega (arith, total-delete k f m d h)

pub element-lookup : (k : Bytes) (c : Cache) → IsIndexed c → element k c ≡ lookup k c.lru
unfolding is_some
element-lookup k c i = ground (arith, i.index k, Option-cases (lookup k c.lru))

module _ (k : Bytes) (e : CacheEntry) (c : Cache) (i : IsIndexed c) (named : e.key ≡ k)
    (versioned : 1 ≤ e.version) where
  -- An element that is there comes first, with another entry or the same.
  pub front-IsIndexed :
      (f : CacheEntry) (bytes : ℕ)
      → lookup k c.lru ≡ some f
      → bytes ≡ total ((k, e) ∷ delete k c.lru)
      → IsIndexed (record c { lru = (k, e) ∷ delete k c.lru; bytes = bytes })
  unfolding is_some
  front-IsIndexed f bytes h b = record {
    distinct = front-Distinct k e f c.lru i.distinct;
    index = λ j. ground (
      arith,
      front-lookup k e f c.lru i.distinct j,
      i.index j,
      same_iff k j,
      ap (λ t. lookup t c.lru) {x = k} {y = j},
    );
    keyed =
        λ j g p. ground (arith, front-lookup k e f c.lru i.distinct j, i.keyed j g, same_iff k j);
    counted = b;
  }

  -- An element that is new comes first.
  new-IsIndexed :
      lookup k c.lru ≡ none
      → IsIndexed (record c {
        entries = k ∷ c.entries;
        lru = (k, e) ∷ c.lru;
        bytes = c.bytes + length e.rendered.xml;
      })
  unfolding is_some mem lookup total
  new-IsIndexed h = record {
    distinct = (rw h, i.distinct);
    index = λ j. ground (arith, i.index j, same_iff k j);
    keyed = λ j g p. ground (arith, i.keyed j g, same_iff k j);
    counted = omega (arith, i.counted);
  }

  pub place-IsIndexed : IsIndexed (place k e c)
  unfolding place
  place-IsIndexed = elim (Option-cases (lookup k c.lru)) [
    | inl h ↦ rw (element-lookup k c i) (rw h (new-IsIndexed h))
    | inr (f, h) ↦ rw (element-lookup k c i) (
        rw h (
          front-IsIndexed f _ h (
            omega (
              arith,
              i.counted,
              total-delete k f c.lru i.distinct h,
              front-total k e f c.lru i.distinct h,
            ))))
  ]

pub remember-IsIndexed :
    (k : Bytes) (e : CacheEntry) (c : Cache) → IsIndexed c → IsIndexed (remember k e c)
unfolding remember
remember-IsIndexed k e c i = record {
  distinct = i.distinct;
  index = i.index;
  keyed = i.keyed;
  counted = i.counted;
}

pub evict_entry-IsIndexed :
    (c : Cache) (o : Option CacheEntry) → back c.lru ≡ o → IsIndexed c → IsIndexed (evict_entry o c)
unfolding is_some
evict_entry-IsIndexed c none h i = i
evict_entry-IsIndexed c (some e) h i = record {
  distinct = drop_back-Distinct c.lru i.distinct;
  index = λ j. ground (
    arith,
    i.index j,
    mem-remove e.key j c.entries,
    lookup-drop_back j c.lru i.distinct,
    i.keyed (back_key c.lru) e (lookup-back_key e c.lru i.distinct h),
    same_iff e.key j,
    same_iff (back_key c.lru) j,
  );
  keyed = λ j g p. ground (arith, i.keyed j g, lookup-drop_back j c.lru i.distinct);
  counted = omega (arith, i.counted, total-drop_back e c.lru h);
}

pub get-lookup : (k : Bytes) (c : Cache) → IsIndexed c → lookup k (get k c).1.lru ≡ (get k c).0
unfolding get
get-lookup k c i = rw (element-lookup k c i) (go (lookup k c.lru) refl)
  where
    go :
        (o : Option CacheEntry)
        → lookup k c.lru ≡ o
        → lookup k (to_front k o c).1.lru ≡ (to_front k o c).0
    go none e = e
    go (some x) e = rw (front-lookup k x x c.lru i.distinct) (rw same_refl refl)
