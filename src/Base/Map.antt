-- ===== src/Base/Map.antt =====
-- A Go map, or a table with a primary key, whose keys are byte texts: an association list.
-- The program's maps are read by key, measured, or walked in an order that does not matter.
use mathlib.Core.Path.{◌≡◌, refl, subst}
use mathlib.Core.Logic.{◌≢◌, inl, inr}
use mathlib.Core.Bool.{Bool, true, false, not, ◌&&◌, ◌||◌}
use mathlib.Core.Option.{Option, none, some}
use mathlib.Core.List.{List, [], ◌∷◌, ◌++◌}
use Prim.Native.Nat.{◌+◌, ◌≤◌}
use native.Mathlib.Omega.{arith}
use kringkasting.Base.Tests.{if◌then◌else◌, Bool-cases}
use kringkasting.Base.Lists.{length}
use kringkasting.Base.Text.{Bytes, same, same_iff, same_refl}

abbrev pub Map {ℓ} : Type ℓ → Type ℓ
Map V = List (Bytes × V)

module _ {ℓ} {V : Type ℓ} where
  unfoldable pub lookup : Bytes → Map V → Option V
  lookup k [] = none
  lookup k ((j, v) ∷ m) = if same j k then some v else lookup k m

  unfoldable pub insert : Bytes → V → Map V → Map V
  insert k v [] = (k, v) ∷ []
  insert k v ((j, w) ∷ m) = if same j k then (k, v) ∷ m else (j, w) ∷ insert k v m

  unfoldable pub delete : Bytes → Map V → Map V
  delete k [] = []
  delete k ((j, w) ∷ m) = let rest = delete k m in if same j k then rest else (j, w) ∷ rest

  unfoldable pub is_some : Option V → Bool
  is_some none = false
  is_some (some v) = true

  pub lookup-insert :
      (k j : Bytes) (v : V) (m : Map V)
      → lookup j (insert k v m) ≡ (if same k j then some v else lookup j m)
  unfolding lookup insert
  lookup-insert k j v [] = refl
  lookup-insert k j v ((i, w) ∷ m) =
      ground (arith, same_iff k j, same_iff i k, same_iff i j, lookup-insert k j v m)

  pub lookup-insert_self : (k : Bytes) (v : V) (m : Map V) → lookup k (insert k v m) ≡ some v
  lookup-insert_self k v m = simp (lookup-insert, same_refl)

  pub lookup-delete :
      (k j : Bytes) (m : Map V) → lookup j (delete k m) ≡ (if same k j then none else lookup j m)
  unfolding lookup delete
  lookup-delete k j [] = ground arith
  lookup-delete k j ((i, w) ∷ m) =
      ground (arith, same_iff k j, same_iff i k, same_iff i j, lookup-delete k j m)

  pub lookup-delete_self : (k : Bytes) (m : Map V) → lookup k (delete k m) ≡ none
  lookup-delete_self k m = simp (lookup-delete, same_refl)

  pub lookup-delete_ne : (k j : Bytes) (m : Map V) → j ≢ k → lookup j (delete k m) ≡ lookup j m
  lookup-delete_ne k j m h = ground (arith, lookup-delete k j m, same_iff k j)

  pub lookup-insert_ne :
      (k j : Bytes) (v : V) (m : Map V) → j ≢ k → lookup j (insert k v m) ≡ lookup j m
  lookup-insert_ne k j v m h = ground (arith, lookup-insert k j v m, same_iff k j)

  pub length-insert-le : (k : Bytes) (v : V) (m : Map V) → length (insert k v m) ≤ length m + 1
  unfolding insert
  length-insert-le k v [] = omega arith
  length-insert-le k v ((i, w) ∷ m) = ground (arith, length-insert-le k v m)

  -- A write to a key that is there adds no entry.
  pub length-insert_present :
      (k : Bytes) (v : V) (m : Map V)
      → is_some (lookup k m) ≡ true
      → length (insert k v m) ≡ length m
  unfolding insert lookup is_some
  length-insert_present k v [] h = cc
  length-insert_present k v ((i, w) ∷ m) h = ground (arith, length-insert_present k v m)

  pub length-delete-le : (k : Bytes) (m : Map V) → length (delete k m) ≤ length m
  unfolding delete
  length-delete-le k [] = omega arith
  length-delete-le k ((i, w) ∷ m) = ground (arith, length-delete-le k m)

-- A Go set, map[string]bool: the ids in it.
unfoldable pub mem : Bytes → List Bytes → Bool
mem k [] = false
mem k (j ∷ js) = same j k || mem k js

-- delete(set, id)
unfoldable pub remove : Bytes → List Bytes → List Bytes
remove id [] = []
remove id (j ∷ js) = let rest = remove id js in if same j id then rest else j ∷ rest

pub mem-remove :
    (id k : Bytes) (ids : List Bytes) → mem k (remove id ids) ≡ (mem k ids && not (same id k))
unfolding mem remove
mem-remove id k [] = refl
mem-remove id k (j ∷ js) =
    ground (arith, mem-remove id k js, same_iff j id, same_iff j k, same_iff id k)

module _ {ℓ} {V : Type ℓ} where
  unfoldable pub keys : Map V → List Bytes
  keys [] = []
  keys ((k, v) ∷ m) = k ∷ keys m

  -- The keys whose value passes a test.
  unfoldable pub keys_where : (V → Bool) → Map V → List Bytes
  keys_where p [] = []
  keys_where p ((k, v) ∷ m) = let rest = keys_where p m in if p v then k ∷ rest else rest

  pub mem-keys : (k : Bytes) (m : Map V) → mem k (keys m) ≡ is_some (lookup k m)
  unfolding mem keys lookup is_some
  mem-keys k [] = refl
  mem-keys k ((j, v) ∷ m) = ground (arith, mem-keys k m)

pub mem-append : (k : Bytes) (xs ys : List Bytes) → mem k (xs ++ ys) ≡ (mem k xs || mem k ys)
unfolding mem
mem-append k [] ys = refl
mem-append k (x ∷ xs) ys = ground (arith, mem-append k xs ys)

module _ {ℓ} {V : Type ℓ} where
  -- No key stands twice.
  abbrev pub Distinct : Map V → Type 0
  Distinct [] = Unit
  Distinct ((k, v) ∷ m) = (is_some (lookup k m) ≡ false) × Distinct m

  is_some-insert :
      (k j : Bytes) (v : V) (m : Map V)
      → is_some (lookup j (insert k v m)) ≡ (same k j || is_some (lookup j m))
  unfolding is_some
  is_some-insert k j v m = ground (arith, lookup-insert k j v m)

  pub insert-Distinct : (k : Bytes) (v : V) (m : Map V) → Distinct m → Distinct (insert k v m)
  unfolding insert lookup is_some
  insert-Distinct k v [] d = (refl, tt)
  insert-Distinct k v ((j, w) ∷ m) d = elim (Bool-cases (same j k)) [
    | inl s ↦ rw s (subst (λ i. is_some (lookup i m) ≡ false) ((same_iff j k).0 s) d.0, d.1)
    | inr n ↦ rw n (
      ground (arith, is_some-insert k j v m, same_iff k j, same_iff j k),
      insert-Distinct k v m d.1,
    )
  ]

  unfoldable pub passes : (V → Bool) → Option V → Bool
  passes p none = false
  passes p (some v) = p v

  absent-keys_where :
      (p : V → Bool) (k : Bytes) (m : Map V)
      → is_some (lookup k m) ≡ false
      → mem k (keys_where p m) ≡ false
  unfolding mem keys_where lookup is_some
  absent-keys_where p k [] h = refl
  absent-keys_where p k ((j, v) ∷ m) h = ground (arith, absent-keys_where p k m)

  -- A key is among those that pass exactly when its own value passes.
  pub mem-keys_where :
      (p : V → Bool) (k : Bytes) (m : Map V)
      → Distinct m
      → mem k (keys_where p m) ≡ passes p (lookup k m)
  unfolding mem keys_where lookup passes
  mem-keys_where p k [] d = refl
  mem-keys_where p k ((j, v) ∷ m) d = elim (Bool-cases (same j k)) [
    | inl s ↦ ground (
      arith,
      absent-keys_where p k m (subst (λ i. is_some (lookup i m) ≡ false) ((same_iff j k).0 s) d.0),
    )
    | inr n ↦ ground (arith, mem-keys_where p k m d.1)
  ]
