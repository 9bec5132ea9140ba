-- ===== src/Nrk/Media/Failures.antt =====
-- An episode that NRK never answers for.
use mathlib.Core.Path.{subst}
use kringkasting.Base.{
  ℕ, zero, suc, ◌+◌, ◌<◌, ◌≡◌, refl, sym, ap, ◌∙◌, Bool, true, false, none, List, [], ◌∷◌, arith,
  leb, if◌then◌else◌, length, Bytes,
}
use kringkasting.Base.Map.{
  Map, lookup, insert, delete, lookup-insert_self, length-insert-le, lookup-delete_self,
}
use kringkasting.Nrk.Media.{manifest_failed, or_zero}

-- The outcomes of a number of transient failures of one episode, and what is counted then.
unfoldable pub fail_times : ℕ → Bytes → Map ℕ → List Bool × Map ℕ
unfolding manifest_failed
fail_times zero id failures = ([], failures)
fail_times (suc n) id failures =
    let (outcome, counted) = manifest_failed id failures in
    let (outcomes, final) = fail_times n id counted in (outcome ∷ outcomes, final)

-- The transient failures that are counted of an episode.
abbrev pub count : Bytes → Map ℕ → ℕ
count id failures = or_zero (lookup id failures)

-- Below 10,000 episodes nothing is forgotten.
failed-small :
    (id : Bytes) (fs : Map ℕ)
    → length fs < 10000
    → manifest_failed id fs ≡ (
        if leb 5 (count id fs + 1)
        then (true, delete id (insert id (count id fs + 1) fs))
        else (false, insert id (count id fs + 1) fs))
unfolding manifest_failed
failed-small id fs l = rw (not_full (length fs) l) refl
  where
    not_full : (n : ℕ) → n < 10000 → leb 10000 n ≡ false
    not_full n h = ground (arith, h)

failed-early :
    (id : Bytes) (fs : Map ℕ)
    → length fs < 10000
    → count id fs < 4
    → manifest_failed id fs ≡ (false, insert id (count id fs + 1) fs)
failed-early id fs l h = failed-small id fs l ∙ (rw (early (count id fs) h) refl)
  where
    early : (n : ℕ) → n < 4 → leb 5 (n + 1) ≡ false
    early n h = ground (arith, h)

failed-fifth :
    (id : Bytes) (fs : Map ℕ)
    → length fs < 10000
    → count id fs ≡ 4
    → manifest_failed id fs ≡ (true, delete id (insert id (count id fs + 1) fs))
failed-fifth id fs l h = failed-small id fs l ∙ (rw h refl)

unfoldable pub falses : ℕ → List Bool
falses zero = true ∷ []
falses (suc n) = false ∷ falses n

-- The outcomes from a count on, up to the one that settles it.
fail_times-from :
    (k : ℕ) (id : Bytes) (fs : Map ℕ)
    → length fs + k < 10000
    → count id fs + k ≡ 4
    → ((fail_times (suc k) id fs).0 ≡ falses k) × (lookup id (fail_times (suc k) id fs).1 ≡ none)
unfolding fail_times falses
fail_times-from zero id fs l h =
    rw (failed-fifth id fs (omega (arith, l)) (omega (arith, h))) (refl, lookup-delete_self id _)
fail_times-from (suc k) id fs l h =
    let e = failed-early id fs (omega (arith, l)) (omega (arith, h)) in
    let next = insert id (count id fs + 1) fs in
    let rest =
      fail_times-from k id next (omega (arith, l, length-insert-le id (count id fs + 1) fs))
        (ap (λ o. or_zero o + k) (lookup-insert_self id (count id fs + 1) fs) ∙ omega (arith, h)) in
    subst
      (λ (o : Bool × Map ℕ).
        (o.0 ∷ (fail_times (suc k) id o.1).0 ≡ false ∷ falses k)
        × (lookup id (fail_times (suc k) id o.1).1 ≡ none))
      (sym e) (ap (λ t. false ∷ t) rest.0, rest.1)

-- While fewer than 9,996 episodes are counted: of the transient failures in a row of an episode that
-- is not counted yet, the first four leave it to be tried again, the fifth settles it, and then it is
-- not counted any more.
pub manifest_failed-fifth :
    (id : Bytes) (failures : Map ℕ)
    → length failures < 9996
    → lookup id failures ≡ none
    → ((fail_times 5 id failures).0 ≡ false ∷ (false ∷ (false ∷ (false ∷ (true ∷ [])))))
      × (lookup id (fail_times 5 id failures).1 ≡ none)
unfolding falses
manifest_failed-fifth id failures l h =
    fail_times-from 4 id failures (omega (arith, l)) (ap (λ o. or_zero o + 4) h)
