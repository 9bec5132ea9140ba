-- ===== src/Feed/Cache/Validators.antt =====
-- The validators that the cache remembers, beside the documents that it holds.
use kringkasting.Base.{
  ℕ, zero, suc, ◌≤◌, ◌≡◌, refl, sym, ap, ◌∙◌, inl, inr, Bool, true, false, Option, none, some, [],
  arith, if◌then◌else◌, Bool-cases, Option-cases, Bytes, same, same_iff,
}
use kringkasting.Base.Map.{Map, lookup, insert, lookup-insert}
use kringkasting.Feed.Cache.{
  CacheEntry, Cache, Validator, get, to_front, put, place, remember, evict, evict_entry, back, over,
}
use kringkasting.Feed.Cache.Elements.{lookup-drop_back}
use kringkasting.Feed.Cache.Books.{
  IsIndexed, element-lookup, front-lookup, place-IsIndexed, remember-IsIndexed,
  evict_entry-IsIndexed,
}
use kringkasting.Feed.Cache.Bounds.{IsConsistent, place-validators, evict_entry-validators}

-- Eviction only takes elements away.
evict_entry-lookup :
    (c : Cache) (o : Option CacheEntry) (j : Bytes) (x : CacheEntry)
    → IsIndexed c
    → lookup j (evict_entry o c).lru ≡ some x
    → lookup j c.lru ≡ some x
evict_entry-lookup c none j x i h = h
evict_entry-lookup c (some e) j x i h = ground (arith, h, lookup-drop_back j c.lru i.distinct)

evict-lookup :
    (n : ℕ) (c : Cache) (j : Bytes) (x : CacheEntry)
    → IsIndexed c
    → lookup j (evict n c).lru ≡ some x
    → lookup j c.lru ≡ some x
unfolding evict
evict-lookup zero c j x i h = h
evict-lookup (suc n) c j x i h = elim (Bool-cases (over c)) [
  | inl o ↦
      let next = evict_entry (back c.lru) c in
      evict_entry-lookup c (back c.lru) j x i
        (evict-lookup n next j x (evict_entry-IsIndexed c (back c.lru) refl i) (ground (arith, h)))
  | inr o ↦ ground (arith, h)
]

place-lookup :
    (k : Bytes) (e : CacheEntry) (c : Cache) (j : Bytes)
    → IsIndexed c
    → lookup j (place k e c).lru ≡ (if same k j then some e else lookup j c.lru)
unfolding place lookup
place-lookup k e c j i = elim (Option-cases (lookup k c.lru)) [
  | inl h ↦ rw (element-lookup k c i) (rw h)
  | inr (f, h) ↦ rw (element-lookup k c i) (rw h (front-lookup k e f c.lru i.distinct j))
]

-- A cached document has the validators that are remembered of its feed, unless none are.
abbrev pub IsAgreed : Cache → Type 0
IsAgreed c =
    (k : Bytes) (e : CacheEntry) (v : Validator)
    → lookup k c.lru ≡ some e
    → lookup k c.validators ≡ some v
    → (e.rendered.etag ≡ v.etag) × (e.rendered.last_modified ≡ v.last_modified)

to_front-IsAgreed :
    (k : Bytes) (c : Cache) (o : Option CacheEntry)
    → IsConsistent c
    → IsAgreed c
    → lookup k c.lru ≡ o
    → IsAgreed (to_front k o c).1
to_front-IsAgreed k c none h a e = a
to_front-IsAgreed k c (some x) h a e = λ j f v p q.
    ground (arith, a j f v, front-lookup k x x c.lru h.indexed.distinct j, same_iff k j, p, q, e)

pub get-IsAgreed : (k : Bytes) (c : Cache) → IsConsistent c → IsAgreed c → IsAgreed (get k c).1
unfolding get
get-IsAgreed k c h a =
    rw (element-lookup k c h.indexed) (to_front-IsAgreed k c (lookup k c.lru) h a refl)

abbrev pub validator_of : CacheEntry → Validator
validator_of e = record { etag = e.rendered.etag; last_modified = e.rendered.last_modified }

insert-kept :
    (b : Bool) (k : Bytes) (n : Validator) (vs : Map Validator) (j : Bytes) (v : Validator)
    → lookup j (insert k n (if b then [] else vs)) ≡ some v
    → (same k j ≡ true → n ≡ v) × (same k j ≡ false → lookup j vs ≡ some v)
unfolding lookup
insert-kept true k n vs j v h =
    (λ s. ground (arith, h, lookup-insert k j n []), λ s. ground (arith, h, lookup-insert k j n []))
insert-kept false k n vs j v h =
    (λ s. ground (arith, h, lookup-insert k j n vs), λ s. ground (arith, h, lookup-insert k j n vs))

-- What is remembered after a render: the new validators, and no others than before.
remember-lookup :
    (k : Bytes) (e : CacheEntry) (c : Cache) (j : Bytes) (v : Validator)
    → lookup j (remember k e c).validators ≡ some v
    → (same k j ≡ true → validator_of e ≡ v) × (same k j ≡ false → lookup j c.validators ≡ some v)
unfolding remember
remember-lookup k e c j v h = insert-kept _ k (validator_of e) c.validators j v h

evict-validators : (n : ℕ) (c : Cache) → (evict n c).validators ≡ c.validators
unfolding evict
evict-validators zero c = refl
evict-validators (suc n) c = elim (Bool-cases (over c)) [
  | inl o ↦
      rw o (evict-validators n (evict_entry (back c.lru) c) ∙ evict_entry-validators (back c.lru) c)
  | inr o ↦ rw o
]

pub put-validators :
    (e : CacheEntry) (c : Cache) → (put e c).validators ≡ (remember e.key e c).validators
put-validators e c =
    let c' = remember e.key e c in
    evict-validators _ (place e.key e c') ∙ place-validators e.key e c'

pub put-IsAgreed :
    (e : CacheEntry) (c : Cache) → IsIndexed c → 1 ≤ e.version → IsAgreed c → IsAgreed (put e c)
put-IsAgreed e c i n a = λ j f v p q.
    let c' = remember e.key e c in
    let i' : IsIndexed c' = remember-IsIndexed e.key e c i in
    let found : (if same e.key j then some e else lookup j c'.lru) ≡ some f =
      sym (place-lookup e.key e c' j i')
      ∙ evict-lookup _ (place e.key e c') j f (place-IsIndexed e.key e c' i' refl n) p in
    let known = remember-lookup e.key e c j v (ap (lookup j) (sym (put-validators e c)) ∙ q) in
    elim (Bool-cases (same e.key j)) [
      | inl s ↦
          let same_entry : e ≡ f = ground (arith, found, s) in
          (
            ap (λ (x : CacheEntry). x.rendered.etag) (sym same_entry)
                ∙ ap (λ (w : Validator). w.etag) (known.0 s),
            ap (λ (x : CacheEntry). x.rendered.last_modified) (sym same_entry)
                ∙ ap (λ (w : Validator). w.last_modified) (known.0 s),
          )
      | inr s ↦ a j f v (unfold remember in ground (arith, found)) (known.1 s)
    ]
