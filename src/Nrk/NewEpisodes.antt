-- ===== src/Nrk/NewEpisodes.antt =====
-- `GetNewEpisodes` of internal/nrk/nrk.go: the walk of a refresh along the listing, newest first. A
-- walk meets NRK's answers, and what the lookups of episodes result in, as functions of the round.
-- The callbacks are what the walk reports: the ids that failed, and the clip references.
pub mod Chain
pub mod Cover
pub mod Ends
pub mod Progress
use kringkasting.Base.{
  ℕ, zero, suc, ◌+◌, Bool, true, false, not, ◌||◌, Option, none, some, List, [], ◌∷◌, ◌++◌, ltb,
  ◌==◌, if◌then◌else◌, Bytes,
}
use kringkasting.Base.Map.{mem}
use kringkasting.Nrk.{
  Listed, WithMedia, EpisodesPage, Resolved, Answer, Collected, collect, filter_skipped, clip_ids,
}

-- `NewEpisodesResult`; the episodes are parsed when the walk is over
pub record NewEpisodes : Type 0 where
  pub episodes : List WithMedia
  pub saw_all_pages : Bool
  pub resume_href : Option Bytes
  pub is_gone : Bool

-- The result, with what the callbacks were told.
pub record Walk : Type 0 where
  pub result : Option NewEpisodes
  pub failed : List Bytes
  pub clips : List (Bytes × Bytes)

pub record Nrk : Type 0 where
  pub answer : ℕ → Bytes → Answer
  pub resolve : ℕ → Listed → Resolved

abbrev pub max_pages : ℕ
max_pages = 10

abbrev pub or_empty : Option Bytes → Bytes
or_empty none = []
or_empty (some href) = href

unfoldable pub saw_known : List Bytes → List Listed → Bool
unfolding mem
saw_known stop [] = false
saw_known stop (e ∷ es) = mem e.id stop || saw_known stop es

-- The page where the walk goes on, none if it is over.
abbrev pub next_href : List Bytes → EpisodesPage → Bytes
next_href stop page = if saw_known stop page.episodes then [] else or_empty page.next

abbrev pub done : NewEpisodes → Walk
done r = record { result = some r; failed = []; clips = [] }

abbrev pub stopped_at : Bytes → List WithMedia → Walk
stopped_at previous found = done (record {
  episodes = found;
  saw_all_pages = false;
  resume_href = some previous;
  is_gone = false;
})

abbrev pub finished : Bytes → Bytes → List WithMedia → Walk
finished [] previous found =
    done (record { episodes = found; saw_all_pages = true; resume_href = none; is_gone = false })
finished (c ∷ href) previous found = stopped_at previous found

-- A page that was not fetched.
abbrev pub refused : ℕ → ℕ → Bytes → List WithMedia → Walk
refused zero status previous found =
    if status == 404 || status == 410
    then done (record { episodes = []; saw_all_pages = false; resume_href = none; is_gone = true })
    else record { result = none; failed = []; clips = [] }
refused (suc p) status previous found = stopped_at previous found

-- What a page reports comes before what the later ones do.
abbrev pub reporting : Collected → EpisodesPage → Walk → Walk
reporting c page rest = record rest {
  failed = c.failed ++ rest.failed;
  clips = clip_ids page.episodes ++ rest.clips;
}

-- The body of the page, if there is one and its status is 200.
abbrev pub listing : Answer → Option EpisodesPage
listing a = if a.status == 200 then a.body else none

abbrev pub with_page {ℓ} : {B : Type ℓ} → Option EpisodesPage → B → (EpisodesPage → B) → B
with_page none b f = b
with_page (some page) b f = f page

module _ (nrk : Nrk) (skip stop : List Bytes) where
  abbrev pub collected : ℕ → EpisodesPage → Collected
  collected p page = collect (nrk.resolve p) (filter_skipped skip page.episodes)

  -- The loop, over the rounds that are left, with the round, the two hrefs and what was found.
  unfoldable pub walk : ℕ → ℕ → Bytes → Bytes → List WithMedia → Walk
  unfolding collect filter_skipped saw_known clip_ids
  walk zero p href previous found = finished href previous found
  walk (suc left) p [] previous found = finished [] previous found
  walk (suc left) p (c ∷ href) previous found =
      with_page (listing (nrk.answer p (c ∷ href)))
        (refused p (nrk.answer p (c ∷ href)).status previous found)
        (λ page.
          let got = collected p page in
          let rest = walk left (p + 1) (next_href stop page) (c ∷ href) (found ++ got.found) in
          reporting got page
            (if ltb 0 got.transient_count then stopped_at previous (found ++ got.found) else rest))

  -- `GetNewEpisodes`, from the saved cursor or the first page
  unfoldable pub get_new_episodes : Bytes → Walk
  unfolding walk
  get_new_episodes href = walk max_pages 0 href href []
