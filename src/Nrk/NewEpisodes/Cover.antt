-- ===== src/Nrk/NewEpisodes/Cover.antt =====
-- A refresh passes over no episode that the feed does not have.
use mathlib.Core.Path.{subst}
use kringkasting.Base.{
  ◌≡◌, refl, sym, ap, ◌∙◌, inl, inr, true, false, ◌||◌, List, [], ◌∷◌, ◌++◌, arith, if◌then◌else◌,
  Bool-cases, All, Bytes, same_refl, All-map,
}
use kringkasting.Base.Map.{mem}
use kringkasting.Nrk.{
  Listed, WithMedia, Resolved, playable, gone, transient, Collected, collect_one, collect,
  filter_skipped,
}

unfoldable pub found_ids : List WithMedia → List Bytes
found_ids [] = []
found_ids (m ∷ ms) = m.id ∷ found_ids ms

-- An episode that need not be skipped was found, or is reported as failed.
abbrev pub Covered : List Bytes → List Bytes → List Bytes → Listed → Type 0
Covered skip found failed e = mem e.id skip ≡ false → (mem e.id found || mem e.id failed) ≡ true

pub found_ids-append :
    (xs ys : List WithMedia) → found_ids (xs ++ ys) ≡ found_ids xs ++ found_ids ys
unfolding found_ids
found_ids-append [] ys = refl
found_ids-append (x ∷ xs) ys = ap (λ t. x.id ∷ t) (found_ids-append xs ys)

module _ (skip : List Bytes) where
  pub Covered-more :
      (found found' failed failed' : List Bytes)
      → ((k : Bytes) → mem k found ≡ true → mem k found' ≡ true)
      → ((k : Bytes) → mem k failed ≡ true → mem k failed' ≡ true)
      → (e : Listed) → Covered skip found failed e
      → Covered skip found' failed' e
  Covered-more found found' failed failed' f g e h = λ n. ground (arith, h n, f e.id, g e.id)

  collect_one-covers :
      (e : Listed) (r : Resolved) (rest : Collected)
      → (collect_one e r rest).transient_count ≡ 0
      → ((mem e.id (found_ids (collect_one e r rest).found)
            || mem e.id (collect_one e r rest).failed)
          ≡ true)
        × (rest.transient_count ≡ 0)
        × ((k : Bytes)
            → mem k (found_ids rest.found) ≡ true
            → mem k (found_ids (collect_one e r rest).found) ≡ true)
        × ((k : Bytes) → mem k rest.failed ≡ true → mem k (collect_one e r rest).failed ≡ true)
  unfolding mem found_ids
  collect_one-covers e (playable url bytes) rest h =
      (ground (arith, same_refl e.id), h, λ k m. ground (arith, m), λ k m. m)
  collect_one-covers e gone rest h =
      (ground (arith, same_refl e.id), h, λ k m. m, λ k m. ground (arith, m))
  collect_one-covers e transient rest h = absurd (omega (arith, h))

  -- What is collected of `ws` covers the page, if no lookup failed transiently.
  abbrev pub Covers : (Listed → Resolved) → List Listed → List Listed → Type 0
  Covers resolve es ws =
      (collect resolve ws).transient_count ≡ 0
      → All (Covered skip (found_ids (collect resolve ws).found) (collect resolve ws).failed) es

  filter-step :
      (e : Listed) (es : List Listed)
      → filter_skipped skip (e ∷ es)
        ≡ (if mem e.id skip then filter_skipped skip es else e ∷ filter_skipped skip es)
  unfolding filter_skipped
  filter-step e es = refl

  collect_one-Covers :
      (resolve : Listed → Resolved) (e : Listed) (es ws : List Listed)
      → Covers resolve es ws
      → Covers resolve (e ∷ es) (e ∷ ws)
  unfolding collect
  collect_one-Covers resolve e es ws c h =
      let rest = collect resolve ws in
      let one = collect_one-covers e (resolve e) rest h in
      let got = collect_one e (resolve e) rest in
      (
        (λ n. one.0),
        All-map (Covered skip (found_ids rest.found) rest.failed)
            (Covered skip (found_ids got.found) got.failed)
            (Covered-more (found_ids rest.found) (found_ids got.found) rest.failed got.failed one.2
              one.3)
            es (c one.1),
      )

  pub collect-Covers :
      (resolve : Listed → Resolved) (es : List Listed) → Covers resolve es (filter_skipped skip es)
  collect-Covers resolve [] = λ h. tt
  collect-Covers resolve (e ∷ es) = elim (Bool-cases (mem e.id skip)) [
    | inl s ↦
        subst (Covers resolve (e ∷ es)) (sym (filter-step e es ∙ (rw s refl)))
          (λ h. ((λ n. absurd (ground (arith, s, n))), collect-Covers resolve es h))
    | inr n ↦
        subst (Covers resolve (e ∷ es)) (sym (filter-step e es ∙ (rw n refl)))
          (collect_one-Covers resolve e es (filter_skipped skip es) (collect-Covers resolve es))
  ]
