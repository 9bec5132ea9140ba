-- ===== src/Nrk/NewEpisodes/Ends.antt =====
-- What the end of a walk is to the pages that it went past, at each way of ending.
use mathlib.Core.Path.{subst}
use kringkasting.Base.{
  ℕ, zero, suc, ◌+◌, ◌≤◌, ◌≡◌, refl, sym, ◌⊎◌, inl, inr, Bool, true, false, ◌||◌, none, some, List,
  [], ◌∷◌, ◌++◌, arith, ltb, ◌==◌, if◌then◌else◌, All, Bytes, All-map,
}
use kringkasting.Base.Map.{mem, mem-append}
use kringkasting.Nrk.{WithMedia, EpisodesPage, Collected}
use kringkasting.Nrk.NewEpisodes.{
  NewEpisodes, Walk, Nrk, next_href, done, stopped_at, finished, refused, reporting, listing,
  with_page, collected,
}
use kringkasting.Nrk.NewEpisodes.Cover.{
  found_ids, Covered, Covered-more, collect-Covers, found_ids-append,
}

-- The href of the last page gone past, or `previous`.
unfoldable pub last_href : Bytes → List (Bytes × EpisodesPage) → Bytes
last_href previous [] = previous
last_href previous ((href, page) ∷ pages) = last_href href pages

abbrev gone_result : NewEpisodes
gone_result = record { episodes = []; saw_all_pages = false; resume_href = none; is_gone = true }

module _ (nrk : Nrk) (skip stop : List Bytes) where
  -- The pages that the walk goes past: fetched, with no lookup that failed transiently.
  unfoldable pub passed : ℕ → ℕ → Bytes → List (Bytes × EpisodesPage)
  passed zero p href = []
  passed (suc left) p [] = []
  passed (suc left) p (c ∷ href) = with_page (listing (nrk.answer p (c ∷ href))) [] (λ page.
      let rest = passed left (p + 1) (next_href stop page) in
      if ltb 0 (collected nrk skip stop p page).transient_count
      then []
      else (c ∷ href, page) ∷ rest)

  -- The href that follows the pages gone past: none when the last holds a known episode, or links
  -- to no other.
  unfoldable pub following : Bytes → List (Bytes × EpisodesPage) → Bytes
  following href [] = href
  following href ((h, page) ∷ pages) = following (next_href stop page) pages

  -- What the result of a walk is to the pages it went past.
  pub record IsSafe (start href : Bytes) (found : List WithMedia)
      (pages : List (Bytes × EpisodesPage)) (w : Walk) (r : NewEpisodes) : Type 0 where
    pub keeps : (k : Bytes) → mem k (found_ids found) ≡ true → mem k (found_ids r.episodes) ≡ true
    pub covers :
        All
          (λ (p : Bytes × EpisodesPage).
            All (Covered skip (found_ids r.episodes) w.failed) p.1.episodes)
          pages
    pub complete : r.saw_all_pages ≡ true → following href pages ≡ []
    pub resumes :
        r.saw_all_pages ≡ false → r.is_gone ≡ false → r.resume_href ≡ some (last_href start pages)

  -- A walk that ends where it is, with a page to come back to.
  stopped-IsSafe :
      (start href : Bytes) (found : List WithMedia) (r : NewEpisodes)
      → (stopped_at start found).result ≡ some r
      → IsSafe start href found [] (stopped_at start found) r
  unfolding last_href
  stopped-IsSafe start href found r h =
      subst (IsSafe start href found [] (stopped_at start found)) {x = ended} (ground (arith, h))
        (record {
          keeps = λ k m. m;
          covers = tt;
          complete = λ c. absurd (ground (arith, c));
          resumes = λ a b. refl;
        })
    where
      ended : NewEpisodes
      ended = record {
        episodes = found;
        saw_all_pages = false;
        resume_href = some start;
        is_gone = false;
      }

  pub finished-IsSafe :
      (href previous : Bytes) (found : List WithMedia) (r : NewEpisodes)
      → (finished href previous found).result ≡ some r
      → IsSafe previous href found [] (finished href previous found) r
  unfolding following
  finished-IsSafe (c ∷ href) previous found r h = stopped-IsSafe previous (c ∷ href) found r h
  finished-IsSafe [] previous found r h =
      subst (IsSafe previous [] found [] (finished [] previous found)) {x = ended}
        (ground (arith, h))
        (record {
          keeps = λ k m. m;
          covers = tt;
          complete = λ c. refl;
          resumes = λ a b. absurd (ground (arith, a));
        })
    where
      ended : NewEpisodes
      ended = record { episodes = found; saw_all_pages = true; resume_href = none; is_gone = false }

  -- The first page of a walk that found nothing yet is gone, or not answered.
  gone-IsSafe :
      (b : Bool) (href previous : Bytes) (r : NewEpisodes)
      → (if b then done gone_result else record { result = none; failed = []; clips = [] }).result
        ≡ some r
      → IsSafe previous href [] []
          (if b then done gone_result else record { result = none; failed = []; clips = [] })
          r
  gone-IsSafe false href previous r h = absurd (ground (arith, h))
  gone-IsSafe true href previous r h =
      subst (IsSafe previous href [] [] (done gone_result)) {x = gone_result} (ground (arith, h))
        (record {
          keeps = λ k m. m;
          covers = tt;
          complete = λ c. absurd (ground (arith, c));
          resumes = λ a b. absurd (ground (arith, b));
        })

  pub refused-IsSafe :
      (p status : ℕ) (href previous : Bytes) (found : List WithMedia) (r : NewEpisodes)
      → (1 ≤ p) ⊎ (found ≡ [])
      → (refused p status previous found).result ≡ some r
      → IsSafe previous href found [] (refused p status previous found) r
  refused-IsSafe (suc p) status href previous found r n h = stopped-IsSafe previous href found r h
  refused-IsSafe zero status href previous found r (inl n) h = absurd (omega (arith, n))
  refused-IsSafe zero status href previous found r (inr n) h =
      subst (λ f. IsSafe previous href f [] (refused zero status previous found) r) (sym n)
        (gone-IsSafe (status == 404 || status == 410) href previous r h)

  module _ (p : ℕ) (found : List WithMedia) (page : EpisodesPage) where
    abbrev got : Collected
    got = collected nrk skip stop p page

    left-found :
        (k : Bytes) → mem k (found_ids found) ≡ true → mem k (found_ids (found ++ got.found)) ≡ true
    left-found k m =
        rw found_ids-append
          (ground (arith, m, mem-append k (found_ids found) (found_ids got.found)))

    right-found :
        (k : Bytes)
        → mem k (found_ids got.found) ≡ true
        → mem k (found_ids (found ++ got.found)) ≡ true
    right-found k m =
        rw found_ids-append
          (ground (arith, m, mem-append k (found_ids found) (found_ids got.found)))

    -- A page with a transient failure: the walk is to come back to the page before.
    pub paused-IsSafe :
        (href previous : Bytes) (r : NewEpisodes)
        → (stopped_at previous (found ++ got.found)).result ≡ some r
        → IsSafe previous href found []
            (reporting got page (stopped_at previous (found ++ got.found)))
            r
    paused-IsSafe href previous r h =
        let s = stopped-IsSafe previous href (found ++ got.found) r h in
        record {
          keeps = λ k m. s.keeps k (left-found k m);
          covers = tt;
          complete = s.complete;
          resumes = s.resumes;
        }

    -- A page gone past, before what the rest of the walk goes past.
    pub past-IsSafe :
        (href previous : Bytes) (pages : List (Bytes × EpisodesPage)) (rest : Walk)
        (r : NewEpisodes)
        → got.transient_count ≡ 0
        → IsSafe href (next_href stop page) (found ++ got.found) pages rest r
        → IsSafe previous href found ((href, page) ∷ pages) (reporting got page rest) r
    unfolding following last_href
    past-IsSafe href previous pages rest r z safe =
        let failed = got.failed ++ rest.failed in
        let mine : All (Covered skip (found_ids r.episodes) failed) page.episodes =
          All-map (Covered skip (found_ids got.found) got.failed)
            (Covered skip (found_ids r.episodes) failed)
            (Covered-more skip (found_ids got.found) (found_ids r.episodes) got.failed failed
              (λ k m. safe.keeps k (right-found k m))
              (λ k m. ground (arith, m, mem-append k got.failed rest.failed)))
            page.episodes (collect-Covers skip (nrk.resolve p) page.episodes z) in
        let theirs =
          All-map
            (λ (q : Bytes × EpisodesPage).
              All (Covered skip (found_ids r.episodes) rest.failed) q.1.episodes)
            (λ (q : Bytes × EpisodesPage).
              All (Covered skip (found_ids r.episodes) failed) q.1.episodes)
            (λ q.
              All-map (Covered skip (found_ids r.episodes) rest.failed)
                (Covered skip (found_ids r.episodes) failed)
                (Covered-more skip (found_ids r.episodes) (found_ids r.episodes) rest.failed failed
                  (λ k m. m) (λ k m. ground (arith, m, mem-append k got.failed rest.failed)))
                q.1.episodes)
            pages safe.covers in
        record {
          keeps = λ k m. safe.keeps k (left-found k m);
          covers = (mine, theirs);
          complete = safe.complete;
          resumes = safe.resumes;
        }
