-- ===== src/Nrk/NewEpisodes/Progress.antt =====
-- What the walk of a refresh has gone past when it ends, and where it goes on.
use kringkasting.Base.{
  ℕ, zero, suc, ◌+◌, ◌≤◌, ◌≡◌, refl, ◌⊎◌, inl, inr, true, false, Option, none, some, List, [], ◌∷◌,
  ◌++◌, arith, ltb, if◌then◌else◌, Bool-cases, All, Bytes,
}
use kringkasting.Nrk.{WithMedia, EpisodesPage}
use kringkasting.Nrk.NewEpisodes.{
  NewEpisodes, Walk, Nrk, max_pages, next_href, stopped_at, refused, reporting, listing, with_page,
  collected, walk, get_new_episodes,
}
use kringkasting.Nrk.NewEpisodes.Chain.{IsChain, passed-IsChain}
use kringkasting.Nrk.NewEpisodes.Cover.{found_ids, Covered}
use kringkasting.Nrk.NewEpisodes.Ends.{
  last_href, passed, following, IsSafe, finished-IsSafe, refused-IsSafe, paused-IsSafe, past-IsSafe,
}

module _ (nrk : Nrk) (skip stop : List Bytes) where
  walk-IsSafe :
      (left p : ℕ) (href previous : Bytes) (found : List WithMedia) (r : NewEpisodes)
      → (1 ≤ p) ⊎ (found ≡ [])
      → (walk nrk skip stop left p href previous found).result ≡ some r
      → IsSafe nrk skip stop previous href found
          (passed nrk skip stop left p href)
          (walk nrk skip stop left p href previous found)
          r
  unfolding walk passed
  walk-IsSafe zero p href previous found r n h =
      finished-IsSafe nrk skip stop href previous found r h
  walk-IsSafe (suc left) p [] previous found r n h =
      finished-IsSafe nrk skip stop [] previous found r h
  walk-IsSafe (suc left) p (c ∷ href) previous found r n h =
      step (listing (nrk.answer p (c ∷ href)))
        (λ page.
          walk-IsSafe left (p + 1) (next_href stop page) (c ∷ href)
            (found ++ (collected nrk skip stop p page).found) r (inl (omega arith)))
        h
    where
      further : EpisodesPage → Walk
      further page =
          walk nrk skip stop left (p + 1) (next_href stop page) (c ∷ href)
            (found ++ (collected nrk skip stop p page).found)

      on_walk : EpisodesPage → Walk
      on_walk page = reporting (collected nrk skip stop p page) page (
          if ltb 0 (collected nrk skip stop p page).transient_count
          then stopped_at previous (found ++ (collected nrk skip stop p page).found)
          else further page)

      on_passed : EpisodesPage → List (Bytes × EpisodesPage)
      on_passed page =
          if ltb 0 (collected nrk skip stop p page).transient_count
          then []
          else (c ∷ href, page) ∷ passed nrk skip stop left (p + 1) (next_href stop page)

      step :
          (o : Option EpisodesPage)
          → ((page : EpisodesPage)
              → (further page).result ≡ some r
              → IsSafe nrk skip stop
                  (c ∷ href)
                  (next_href stop page)
                  (found ++ (collected nrk skip stop p page).found)
                  (passed nrk skip stop left (p + 1) (next_href stop page))
                  (further page)
                  r)
          → (with_page o (refused p (nrk.answer p (c ∷ href)).status previous found) on_walk).result
            ≡ some r
          → IsSafe nrk skip stop previous
              (c ∷ href)
              found
              (with_page o [] on_passed)
              (with_page o (refused p (nrk.answer p (c ∷ href)).status previous found) on_walk)
              r
      step none later h = refused-IsSafe nrk skip stop p _ (c ∷ href) previous found r n h
      step (some page) later h =
          elim (Bool-cases (ltb 0 (collected nrk skip stop p page).transient_count)) [
            | inl t ↦ rw t (
                paused-IsSafe nrk skip stop p found page (c ∷ href) previous r
                  (ground (arith, h, t)))
            | inr t ↦ rw t (
                past-IsSafe nrk skip stop p found page (c ∷ href) previous
                  (passed nrk skip stop left (p + 1) (next_href stop page)) (further page) r
                  (ground arith) (later page (ground (arith, h, t))))
          ]

  -- However NRK answers, and whatever the lookups result in: of each page that a refresh goes past,
  -- it returns every episode that is not to be skipped, or reports it as failed. These pages are what
  -- NRK answered to the href of the refresh and then to each page's link, and none but the last holds
  -- an episode to stop at. The refresh says that it saw all pages only when the last of them holds
  -- such an episode, or links to no other; if not, and unless the listing is gone, it is to be resumed
  -- at the last of them, or where it started.
  pub get_new_episodes-cover :
      (href : Bytes) (r : NewEpisodes)
      → (get_new_episodes nrk skip stop href).result ≡ some r
      → All
          (λ (p : Bytes × EpisodesPage).
            All
              (Covered skip (found_ids r.episodes) (get_new_episodes nrk skip stop href).failed)
              p.1.episodes)
          (passed nrk skip stop max_pages 0 href)
        × ((end : Bytes) × IsChain nrk stop 0 href (passed nrk skip stop max_pages 0 href) end
            × (r.saw_all_pages ≡ true → end ≡ []))
        × (r.saw_all_pages ≡ false
            → r.is_gone ≡ false
            → r.resume_href ≡ some (last_href href (passed nrk skip stop max_pages 0 href)))
  unfolding get_new_episodes
  get_new_episodes-cover href r h =
      let safe = walk-IsSafe max_pages 0 href href [] r (inr refl) h in
      (
        safe.covers,
        (
          following nrk skip stop href (passed nrk skip stop max_pages 0 href),
          passed-IsChain nrk skip stop max_pages 0 href,
          safe.complete,
        ),
        safe.resumes,
      )
