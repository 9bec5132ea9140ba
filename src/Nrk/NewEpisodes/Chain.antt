-- ===== src/Nrk/NewEpisodes/Chain.antt =====
-- The pages that a walk goes past, told by what NRK answered alone.
use kringkasting.Base.{
  ℕ, zero, suc, ◌+◌, ◌≡◌, refl, ◌⊎◌, inl, inr, true, false, Option, none, some, List, [], ◌∷◌, map,
  arith, ltb, ◌==◌, if◌then◌else◌, ==_iff, Bool-cases, All, Bytes, same_refl,
}
use kringkasting.Base.Map.{mem}
use kringkasting.Nrk.{Listed, EpisodesPage}
use kringkasting.Nrk.NewEpisodes.{Nrk, saw_known, next_href, or_empty, with_page, collected}
use kringkasting.Nrk.NewEpisodes.Ends.{passed, following}

-- One of the episodes is to be stopped at.
abbrev pub HasKnown : List Bytes → List Listed → Type 0
HasKnown stop es =
    (k : Bytes) × (mem k (map (λ (e : Listed). e.id) es) ≡ true) × (mem k stop ≡ true)

abbrev pub HasNoneKnown : List Bytes → List Listed → Type 0
HasNoneKnown stop es = All (λ (e : Listed). mem e.id stop ≡ false) es

-- A page leads to another when it links to it and has no episode to stop at, and to none when it has
-- one or links to no other.
abbrev pub LeadsTo : List Bytes → EpisodesPage → Bytes → Type 0
LeadsTo stop page [] = HasKnown stop page.episodes ⊎ ((page.next ≡ none) ⊎ (page.next ≡ some []))
LeadsTo stop page (c ∷ href) = (page.next ≡ some (c ∷ href)) × HasNoneKnown stop page.episodes

-- The pages are those that NRK answered with in the rounds from the given one on, each led to by the
-- one before it; the last leads to the end.
abbrev pub IsChain : Nrk → List Bytes → ℕ → Bytes → List (Bytes × EpisodesPage) → Bytes → Type 0
IsChain nrk stop p href [] end = href ≡ end
IsChain nrk stop p href ((h, page) ∷ pages) end =
    (h ≡ href)
    × ((nrk.answer p h).status ≡ 200)
    × ((nrk.answer p h).body ≡ some page)
    × ((next : Bytes) × LeadsTo stop page next × IsChain nrk stop (p + 1) next pages end)

HasKnown-cons :
    (stop : List Bytes) (e : Listed) (es : List Listed) → HasKnown stop es → HasKnown stop (e ∷ es)
HasKnown-cons stop e es (k, among, known) = (k, unfold mem in ground (arith, among), known)

saw_known-HasKnown :
    (stop : List Bytes) (es : List Listed) → saw_known stop es ≡ true → HasKnown stop es
unfolding saw_known
saw_known-HasKnown stop [] h = cc
saw_known-HasKnown stop (e ∷ es) h = elim (Bool-cases (mem e.id stop)) [
  | inl y ↦ (e.id, unfold mem in rw same_refl refl, y)
  | inr n ↦ HasKnown-cons stop e es (saw_known-HasKnown stop es (ground (arith, h, n)))
]

saw_known-HasNoneKnown :
    (stop : List Bytes) (es : List Listed) → saw_known stop es ≡ false → HasNoneKnown stop es
unfolding saw_known
saw_known-HasNoneKnown stop [] h = tt
saw_known-HasNoneKnown stop (e ∷ es) h =
    (ground (arith, h), saw_known-HasNoneKnown stop es (ground (arith, h)))

next_href-LeadsTo :
    (stop : List Bytes) (page : EpisodesPage) → LeadsTo stop page (next_href stop page)
next_href-LeadsTo stop page = elim (Bool-cases (saw_known stop page.episodes)) [
  | inl y ↦ rw y (inl (saw_known-HasKnown stop page.episodes y))
  | inr n ↦ rw n (linked page.next refl (saw_known-HasNoneKnown stop page.episodes n))
]
  where
    linked :
        (o : Option Bytes)
        → page.next ≡ o
        → HasNoneKnown stop page.episodes
        → LeadsTo stop page (or_empty o)
    linked none e h = inr (inl e)
    linked (some []) e h = inr (inr e)
    linked (some (c ∷ href)) e h = (e, h)

module _ (nrk : Nrk) (skip stop : List Bytes) where
  pub passed-IsChain :
      (left p : ℕ) (href : Bytes)
      → IsChain nrk stop p href
          (passed nrk skip stop left p href)
          (following nrk skip stop href (passed nrk skip stop left p href))
  unfolding passed following
  passed-IsChain zero p href = refl
  passed-IsChain (suc left) p [] = refl
  passed-IsChain (suc left) p (c ∷ href) =
      on_page (nrk.answer p (c ∷ href)).body refl
        (λ page. passed-IsChain left (p + 1) (next_href stop page))
    where
      rest : EpisodesPage → List (Bytes × EpisodesPage)
      rest page =
          if ltb 0 (collected nrk skip stop p page).transient_count
          then []
          else (c ∷ href, page) ∷ passed nrk skip stop left (p + 1) (next_href stop page)

      on_page :
          (o : Option EpisodesPage)
          → (nrk.answer p (c ∷ href)).body ≡ o
          → ((page : EpisodesPage)
              → IsChain nrk stop
                  (p + 1)
                  (next_href stop page)
                  (passed nrk skip stop left (p + 1) (next_href stop page))
                  (following nrk skip stop
                    (next_href stop page)
                    (passed nrk skip stop left (p + 1) (next_href stop page))))
          → IsChain nrk stop p
              (c ∷ href)
              (with_page (if (nrk.answer p (c ∷ href)).status == 200 then o else none) [] rest)
              (following nrk skip stop
                (c ∷ href)
                (with_page (if (nrk.answer p (c ∷ href)).status == 200 then o else none) [] rest))
      on_page o e later = elim (Bool-cases ((nrk.answer p (c ∷ href)).status == 200)) [
        | inr n ↦ rw n refl
        | inl y ↦ rw y (with_body o e ((==_iff (nrk.answer p (c ∷ href)).status 200).0 y))
      ]
        where
          with_body :
              (b : Option EpisodesPage)
              → (nrk.answer p (c ∷ href)).body ≡ b
              → (nrk.answer p (c ∷ href)).status ≡ 200
              → IsChain nrk stop p
                  (c ∷ href)
                  (with_page b [] rest)
                  (following nrk skip stop (c ∷ href) (with_page b [] rest))
          with_body none e' ok = refl
          with_body (some page) e' ok =
              elim (Bool-cases (ltb 0 (collected nrk skip stop p page).transient_count)) [
                | inl t ↦ rw t refl
                | inr t ↦
                    rw t
                      (refl, ok, e', (next_href stop page, next_href-LeadsTo stop page, later page))
              ]
