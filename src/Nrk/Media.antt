-- ===== src/Nrk/Media.antt =====
-- `episodeWithDownloadLink` and the count of its transient failures, in internal/nrk/nrk.go. NRK's
-- answer, the leave to ask for it, and the size that the HEAD request finds are arguments.
pub mod Links
pub mod Failures
use kringkasting.Base.{
  ℕ, ◌+◌, Bool, true, false, not, ◌&&◌, ◌||◌, Option, none, some, List, [], ◌∷◌, ltb, leb, ◌==◌,
  if◌then◌else◌, length, Bytes,
}
use kringkasting.Base.Map.{Map, lookup, insert, delete}
use kringkasting.Nrk.{Resolved, playable, gone, transient, is_hls}

-- `manifest`: the URLs of the assets, which may be null, if it is playable
pub record Manifest : Type 0 where
  pub assets : Option (List (Option Bytes))

abbrev pub max_manifest_failures : ℕ
max_manifest_failures = 5

abbrev pub or_zero : Option ℕ → ℕ
or_zero none = 0
or_zero (some n) = n

-- `manifestFailed`
unfoldable pub manifest_failed : Bytes → Map ℕ → Bool × Map ℕ
unfolding lookup insert delete
manifest_failed id failures =
    let kept = if leb 10000 (length failures) then [] else failures in
    let count = or_zero (lookup id kept) + 1 in
    if leb max_manifest_failures count
    then (true, delete id (insert id count kept))
    else (false, insert id count kept)

-- `manifestSucceeded`
abbrev pub manifest_succeeded : Bytes → Map ℕ → Map ℕ
manifest_succeeded id failures = delete id failures

unfoldable pub is_file : Bytes → Bool
unfolding is_hls
is_file [] = false
is_file (c ∷ url) = not (is_hls (c ∷ url))

-- The first asset that is a file.
unfoldable pub first_file : List (Option Bytes) → Bytes
unfolding is_file
first_file [] = []
first_file (none ∷ assets) = first_file assets
first_file (some url ∷ assets) = let rest = first_file assets in if is_file url then url else rest

abbrev first_asset : List (Option Bytes) → Bytes
first_asset [] = []
first_asset (none ∷ assets) = []
first_asset (some url ∷ assets) = url

abbrev or_first : Bytes → List (Option Bytes) → Bytes
or_first [] assets = first_asset assets
or_first (c ∷ url) assets = c ∷ url

-- The link: the first file, or the first asset.
unfoldable pub link_of : Option (List (Option Bytes)) → Bytes
unfolding first_file
link_of none = []
link_of (some assets) = or_first (first_file assets) assets

-- A status that settles it.
abbrev pub is_definitive : ℕ → Bool
is_definitive status =
    status == 200
    || (((leb 400 status && ltb status 500) && not (status == 408)) && not (status == 429))

-- Without a link.
abbrev pub unplayable : Bytes → Bool → Bool × Map ℕ → Map ℕ → Resolved × Map ℕ
unplayable id true counted failures = (gone, manifest_succeeded id failures)
unplayable id false (true, counted) failures = (gone, manifest_succeeded id counted)
unplayable id false (false, counted) failures = (transient, counted)

abbrev pub with_link : Bytes → ℕ → Bytes → Option ℕ → Map ℕ → Resolved × Map ℕ
with_link id status [] size failures =
    unplayable id (is_definitive status) (manifest_failed id failures) failures
with_link id status (c ∷ url) size failures =
    if status == 200
    then (
      playable (c ∷ url) (if is_hls (c ∷ url) then none else size),
      manifest_succeeded id failures,
    )
    else unplayable id (is_definitive status) (manifest_failed id failures) failures

unfoldable pub episode_with_download_link :
    Bool → Bytes → ℕ → Manifest → Option ℕ → Map ℕ → Resolved × Map ℕ
unfolding link_of manifest_failed
episode_with_download_link allowed id status m size failures =
    if not allowed
    then (transient, failures)
    else with_link id status (link_of m.assets) size failures
