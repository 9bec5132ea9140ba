-- ===== src/Feed/Cache/Elements.antt =====
-- The list of elements in order of use, when no key stands in it twice.
use kringkasting.Base.{
  ℕ, ◌+◌, ◌≡◌, refl, ap, inl, inr, true, false, none, some, [], ◌∷◌, arith, if◌then◌else◌,
  Bool-cases, length, Bytes, same, same_iff, same_refl,
}
use kringkasting.Base.Map.{Map, lookup, delete, is_some, lookup-delete, Distinct}
use kringkasting.Feed.Cache.{CacheEntry, back, drop_back}

-- The bytes of all documents.
unfoldable pub total : Map CacheEntry → ℕ
total [] = 0
total ((k, e) ∷ m) = length e.rendered.xml + total m

pub delete-Distinct : (k : Bytes) (m : Map CacheEntry) → Distinct m → Distinct (delete k m)
unfolding delete lookup is_some
delete-Distinct k [] d = tt
delete-Distinct k ((j, e) ∷ m) d = elim (Bool-cases (same j k)) [
  | inl s ↦ rw s (delete-Distinct k m d.1)
  | inr n ↦ rw n (ground (arith, d.0, lookup-delete k j m), delete-Distinct k m d.1)
]

delete-absent : (k : Bytes) (m : Map CacheEntry) → is_some (lookup k m) ≡ false → delete k m ≡ m
unfolding delete lookup is_some
delete-absent k [] h = refl
delete-absent k ((j, e) ∷ m) h = ground (arith, delete-absent k m)

-- Deleting a key takes the bytes of its document, and one element.
pub total-delete :
    (k : Bytes) (e : CacheEntry) (m : Map CacheEntry)
    → Distinct m
    → lookup k m ≡ some e
    → (total (delete k m) + length e.rendered.xml ≡ total m) × (length (delete k m) + 1 ≡ length m)
unfolding delete lookup is_some total
total-delete k e [] d h = cc
total-delete k e ((j, f) ∷ m) d h = elim (Bool-cases (same j k)) [
  | inl s ↦
      ground (arith, h, d.0, delete-absent k m, same_iff j k, ap (λ i. lookup i m) {x = j} {y = k})
  | inr n ↦ ground (arith, total-delete k e m d.1)
]

-- The key of the last element.
unfoldable pub back_key : Map CacheEntry → Bytes
back_key [] = []
back_key ((k, e) ∷ []) = k
back_key ((k, e) ∷ (p ∷ m)) = back_key (p ∷ m)

pub lookup-back_key :
    (e : CacheEntry) (m : Map CacheEntry)
    → Distinct m
    → back m ≡ some e
    → lookup (back_key m) m ≡ some e
unfolding lookup is_some back back_key
lookup-back_key e [] d h = cc
lookup-back_key e ((k, f) ∷ []) d h = ground (arith, same_refl k)
lookup-back_key e ((k, f) ∷ (p ∷ m)) d h =
    ground (arith, lookup-back_key e (p ∷ m) d.1, d.0, same_iff k (back_key (p ∷ m)))

drop_back-cons :
    (k : Bytes) (f : CacheEntry) (p : Bytes × CacheEntry) (m : Map CacheEntry)
    → (drop_back ((k, f) ∷ (p ∷ m)) ≡ (k, f) ∷ drop_back (p ∷ m))
      × (back_key ((k, f) ∷ (p ∷ m)) ≡ back_key (p ∷ m))
unfolding drop_back back_key
drop_back-cons k f p m = (refl, refl)

lookup-head :
    (j k : Bytes) (f : CacheEntry) (m : Map CacheEntry)
    → lookup j ((k, f) ∷ m) ≡ (if same k j then some f else lookup j m)
unfolding lookup
lookup-head j k f m = refl

back_key-found :
    (p : Bytes × CacheEntry) (m : Map CacheEntry)
    → is_some (lookup (back_key (p ∷ m)) (p ∷ m)) ≡ true
unfolding lookup is_some back_key
back_key-found p [] = ground (arith, same_refl p.0)
back_key-found p (q ∷ m) = ground (arith, back_key-found q m)

pub lookup-drop_back :
    (j : Bytes) (m : Map CacheEntry)
    → Distinct m
    → lookup j (drop_back m) ≡ (if same (back_key m) j then none else lookup j m)
lookup-drop_back j [] d = unfold lookup drop_back in ground arith
lookup-drop_back j ((k, f) ∷ []) d = unfold lookup drop_back back_key in ground arith
lookup-drop_back j ((k, f) ∷ (p ∷ m)) d = rw (drop_back-cons k f p m).0 (
    rw (drop_back-cons k f p m).1 (
      rw (lookup-head j k f (drop_back (p ∷ m))) (
        rw (lookup-head j k f (p ∷ m)) (
          ground (
            arith,
            lookup-drop_back j (p ∷ m) d.1,
            back_key-found p m,
            d.0,
            same_iff k j,
            same_iff (back_key (p ∷ m)) j,
          )))))

pub drop_back-Distinct : (m : Map CacheEntry) → Distinct m → Distinct (drop_back m)
unfolding lookup is_some drop_back
drop_back-Distinct [] d = tt
drop_back-Distinct ((k, f) ∷ []) d = tt
drop_back-Distinct ((k, f) ∷ (p ∷ m)) d =
    (ground (arith, lookup-drop_back k (p ∷ m) d.1, d.0), drop_back-Distinct (p ∷ m) d.1)

pub total-drop_back :
    (e : CacheEntry) (m : Map CacheEntry)
    → back m ≡ some e
    → (total (drop_back m) + length e.rendered.xml ≡ total m)
      × (length (drop_back m) + 1 ≡ length m)
unfolding total drop_back back
total-drop_back e [] h = cc
total-drop_back e ((k, f) ∷ []) h = ground arith
total-drop_back e ((k, f) ∷ (p ∷ m)) h = ground (arith, total-drop_back e (p ∷ m) h)
