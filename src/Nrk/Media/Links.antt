-- ===== src/Nrk/Media/Links.antt =====
-- The link that an episode gets.
use mathlib.Core.Path.{subst}
use kringkasting.Base.{
  ℕ, ◌≡◌, refl, sym, ap, ◌∙◌, ◌≢◌, inl, inr, Bool, true, false, ◌||◌, Option, none, some, List, [],
  ◌∷◌, arith, ◌==◌, if◌then◌else◌, ==_iff, Bool-cases, Bytes, same, same_refl,
}
use kringkasting.Base.Map.{Map}
use kringkasting.Nrk.{Resolved, playable, is_hls}
use kringkasting.Nrk.Media.{
  is_file, first_file, or_first, link_of, is_definitive, unplayable, with_link,
  episode_with_download_link, manifest_failed,
}

-- Some asset is a file.
unfoldable pub has_file : List (Option Bytes) → Bool
has_file [] = false
has_file (none ∷ assets) = has_file assets
has_file (some url ∷ assets) = is_file url || has_file assets

unfoldable pub has_asset : Bytes → List (Option Bytes) → Bool
has_asset url [] = false
has_asset url (none ∷ assets) = has_asset url assets
has_asset url (some u ∷ assets) = same u url || has_asset url assets

first_file-step :
    (url : Bytes) (assets : List (Option Bytes))
    → first_file (some url ∷ assets) ≡ (if is_file url then url else first_file assets)
unfolding first_file
first_file-step url assets = refl

-- It is a file, and an asset.
abbrev Chosen : List (Option Bytes) → Bytes → Type 0
Chosen assets url = (is_file url ≡ true) × (has_asset url assets ≡ true)

Chosen-more :
    (u url : Bytes) (assets : List (Option Bytes))
    → Chosen assets url
    → Chosen (some u ∷ assets) url
unfolding has_asset
Chosen-more u url assets c = (c.0, ground (arith, c.1))

Chosen-head :
    (url : Bytes) (assets : List (Option Bytes))
    → is_file url ≡ true
    → Chosen (some url ∷ assets) url
unfolding has_asset
Chosen-head url assets f = (f, rw same_refl refl)

no_file : has_file [] ≡ true → ⊥
unfolding has_file
no_file h = cc

has_file-none :
    (assets : List (Option Bytes)) → has_file (none ∷ assets) ≡ true → has_file assets ≡ true
unfolding has_file
has_file-none assets h = h

has_file-some :
    (url : Bytes) (assets : List (Option Bytes))
    → has_file (some url ∷ assets) ≡ true
    → is_file url ≡ false
    → has_file assets ≡ true
unfolding has_file
has_file-some url assets h f = ground (arith, h, f)

Chosen-none :
    (assets : List (Option Bytes))
    → Chosen assets (first_file assets)
    → Chosen (none ∷ assets) (first_file (none ∷ assets))
unfolding first_file has_asset
Chosen-none assets c = c

first_file-Chosen :
    (assets : List (Option Bytes)) → has_file assets ≡ true → Chosen assets (first_file assets)
first_file-Chosen [] h = absurd (no_file h)
first_file-Chosen (none ∷ assets) h =
    Chosen-none assets (first_file-Chosen assets (has_file-none assets h))
first_file-Chosen (some url ∷ assets) h = elim (Bool-cases (is_file url)) [
  | inl f ↦
      subst (Chosen (some url ∷ assets)) (sym (first_file-step url assets ∙ (rw f refl)))
        (Chosen-head url assets f)
  | inr f ↦ subst (Chosen (some url ∷ assets)) (sym (first_file-step url assets ∙ (rw f refl))) (
      Chosen-more url (first_file assets) assets
        (first_file-Chosen assets (has_file-some url assets h f)))
]

-- A link that is a file stays the link.
or_first-file :
    (url : Bytes) (assets : List (Option Bytes)) → is_file url ≡ true → or_first url assets ≡ url
unfolding is_file
or_first-file [] assets f = cc
or_first-file (c ∷ url) assets f = refl

is_file-hls : (url : Bytes) → is_file url ≡ true → is_hls url ≡ false
unfolding is_file
is_file-hls [] f = cc
is_file-hls (c ∷ url) f = ground (arith, f)

unplayable-not :
    (id : Bytes) (b : Bool) (o : Bool × Map ℕ) (fs : Map ℕ) (url : Bytes) (size : Option ℕ)
    → (unplayable id b o fs).0 ≢ playable url size
unplayable-not id true counted fs url size h = cc
unplayable-not id false (true, counted) fs url size h = cc
unplayable-not id false (false, counted) fs url size h = cc

with_link-playable :
    (id : Bytes) (status : ℕ) (link : Bytes) (size : Option ℕ) (fs : Map ℕ) (url : Bytes)
    (bytes : Option ℕ)
    → (with_link id status link size fs).0 ≡ playable url bytes
    → (status ≡ 200) × (link ≡ url) × (is_hls url ≡ true → bytes ≡ none)
with_link-playable id status [] size fs url bytes h =
    absurd (unplayable-not id (is_definitive status) (manifest_failed id fs) fs url bytes h)
with_link-playable id status (c ∷ link) size fs url bytes h = elim (Bool-cases (status == 200)) [
  | inl s ↦
      let p : playable (c ∷ link) (if is_hls (c ∷ link) then none else size) ≡ playable url bytes =
        ground (arith, h, s) in
      let same_url : c ∷ link ≡ url = ap url_of p in
      let same_size : (if is_hls (c ∷ link) then none else size) ≡ bytes = ap size_of p in
      (
        (==_iff status 200).0 s,
        same_url,
        λ hls. sym same_size ∙ (rw (ap is_hls same_url ∙ hls) refl),
      )
  | inr n ↦ absurd (
      unplayable-not id (is_definitive status) (manifest_failed id fs) fs url bytes
        (ground (arith, h, n)))
]
  where
    url_of : Resolved → Bytes
    url_of (playable u z) = u
    url_of r = []

    size_of : Resolved → Option ℕ
    size_of (playable u z) = z
    size_of r = none

-- Whatever NRK answers, an episode is playable only where the request was allowed and answered with
-- status 200; its link is then a file, and one of the assets, if any asset is a file; and it has no
-- size if the link is an HLS stream.
pub media-playable :
    (allowed : Bool) (id : Bytes) (status : ℕ) (assets : List (Option Bytes)) (size : Option ℕ)
    (failures : Map ℕ) (url : Bytes) (bytes : Option ℕ)
    → (episode_with_download_link allowed id status
        (record { assets = some assets })
        size
        failures).0
      ≡ playable url bytes
    → (allowed ≡ true)
      × (status ≡ 200)
      × (has_file assets ≡ true → (is_hls url ≡ false) × (has_asset url assets ≡ true))
      × (is_hls url ≡ true → bytes ≡ none)
unfolding episode_with_download_link
media-playable false id status assets size failures url bytes h = cc
media-playable true id status assets size failures url bytes h =
    let p = with_link-playable id status (link_of (some assets)) size failures url bytes h in
    (
      refl,
      p.0,
      λ f.
          let chosen = first_file-Chosen assets f in
          let link : first_file assets ≡ url =
            sym (unfold link_of in or_first-file (first_file assets) assets chosen.0) ∙ p.1 in
          (
            ap is_hls (sym link) ∙ is_file-hls (first_file assets) chosen.0,
            ap (λ u. has_asset u assets) (sym link) ∙ chosen.1,
          ),
      p.2,
    )
