-- ===== src/NrkLink/Forms.antt =====
-- Links printed and read back.
use kringkasting.Base.{
  ℕ, ◌≡◌, refl, ap, ◌∙◌, Bool, true, false, not, ◌&&◌, Option, some, List, [], ◌∷◌, ◌++◌,
  append-nil, arith, ◌==◌, All, All-append, Bytes, codes, same,
}
use kringkasting.Base.Ascii.{
  trim_space, trim_left, trim_right, before_trimmed, is_space, all_bytes, to_lower, passing,
}
use kringkasting.FeedId.{is_resource_byte, valid_resource}
use kringkasting.NrkLink.{
  Kind, podcast, series, Link, supported, Url, is_nil, prepend, split_slash, not_empty, segments,
  fold_from, named, empty_or_valid, kind_of, link_of, of_url, has_scheme, has_blank,
  looks_like_link, parse,
}

abbrev pub kind_word : Kind → Bytes
kind_word podcast = codes "podkast"
kind_word series = codes "serie"

abbrev pub season_words : Bytes → List Bytes
season_words [] = []
season_words (c ∷ s) = codes "sesong" ∷ ((c ∷ s) ∷ [])

abbrev pub episode_words : Bytes → List Bytes
episode_words [] = []
episode_words (c ∷ s) = (c ∷ s) ∷ []

abbrev pub words : Link → List Bytes
words l =
    kind_word l.kind ∷ (l.series_id ∷ (season_words l.season_id ++ episode_words l.episode_id))

abbrev pub join : List Bytes → Bytes
join [] = []
join (word ∷ more) = codes "/" ++ (word ++ join more)

-- NRK's own text of a link.
abbrev pub text_of : Link → Bytes
text_of l = codes "https://radio.nrk.no" ++ join (words l)

-- Ids as NRK has them; an episode without a season is not called "sesong".
abbrev pub IsNamed : Link → Type 0
IsNamed l =
    (valid_resource l.series_id ≡ true)
    × (empty_or_valid l.season_id ≡ true)
    × (empty_or_valid l.episode_id ≡ true)
    × ((is_nil l.season_id && same l.episode_id (codes "sesong")) ≡ false)

abbrev IsWord : Bytes → Type 0
IsWord word = (is_nil word ≡ false) × (all_bytes is_resource_byte word ≡ true)

resource_no_slash : (c : ℕ) → is_resource_byte c ≡ true → (c == 47) ≡ false
unfolding is_resource_byte
resource_no_slash c h = ground (arith, h)

split-word : (w : Bytes) → all_bytes is_resource_byte w ≡ true → split_slash w ≡ w ∷ []
unfolding split_slash all_bytes is_resource_byte
split-word [] h = refl
split-word (c ∷ w) h =
    let (here, rest) = passing is_resource_byte c w h in
    rw (resource_no_slash c here) (ap (prepend c) (split-word w rest))

split-append :
    (w rest : Bytes)
    → all_bytes is_resource_byte w ≡ true
    → split_slash (w ++ (codes "/" ++ rest)) ≡ w ∷ split_slash rest
unfolding split_slash all_bytes is_resource_byte
split-append [] rest h = refl
split-append (c ∷ w) rest h =
    let (here, more) = passing is_resource_byte c w h in
    rw (resource_no_slash c here) (ap (prepend c) (split-append w rest more))

split-join :
    (w : Bytes) (ws : List Bytes)
    → all_bytes is_resource_byte w ≡ true
    → All IsWord ws
    → split_slash (w ++ join ws) ≡ w ∷ ws
split-join w [] h hs = rw (append-nil w) (split-word w h)
split-join w (v ∷ vs) h hs =
    split-append w (v ++ join vs) h ∙ ap (λ r. w ∷ r) (split-join v vs hs.0.1 hs.1)

not_empty-words : (ws : List Bytes) → All IsWord ws → not_empty ws ≡ ws
unfolding not_empty
not_empty-words [] h = refl
not_empty-words (w ∷ ws) h = rw h.0.0 (ap (λ r. w ∷ r) (not_empty-words ws h.1))

segments-join :
    (w : Bytes) (ws : List Bytes) → All IsWord (w ∷ ws) → segments (join (w ∷ ws)) ≡ w ∷ ws
unfolding segments split_slash not_empty
segments-join w ws h =
    ap not_empty (ap (λ r. [] ∷ r) (split-join w ws h.0.1 h.1)) ∙ not_empty-words (w ∷ ws) h

unspaced : ℕ → Bool
unspaced c = not (is_space c)

kept : (c : ℕ) (s : Bytes) → unspaced c ≡ true → before_trimmed c s ≡ c ∷ s
unfolding before_trimmed unspaced
kept c [] h = ground (arith, h)
kept c (d ∷ s) h = refl

trim_left-unspaced : (s : Bytes) → all_bytes unspaced s ≡ true → trim_left s ≡ s
unfolding trim_left unspaced
trim_left-unspaced [] h = refl
trim_left-unspaced (c ∷ s) h = ground (arith, (passing unspaced c s h).0)

trim_right-unspaced : (s : Bytes) → all_bytes unspaced s ≡ true → trim_right s ≡ s
unfolding trim_right before_trimmed unspaced
trim_right-unspaced [] h = refl
trim_right-unspaced (c ∷ s) h =
    let (here, more) = passing unspaced c s h in
    ap (before_trimmed c) (trim_right-unspaced s more) ∙ kept c s here

trim-unspaced : (s : Bytes) → all_bytes unspaced s ≡ true → trim_space s ≡ s
unfolding trim_space
trim-unspaced s h = rw (trim_left-unspaced s h) (trim_right-unspaced s h)

blank-unspaced : (s : Bytes) → all_bytes unspaced s ≡ true → has_blank s ≡ false
unfolding has_blank is_space unspaced
blank-unspaced [] h = refl
blank-unspaced (c ∷ s) h =
    let (here, more) = passing unspaced c s h in ground (arith, here, blank-unspaced s more)

unspaced-append :
    (s t : Bytes)
    → all_bytes unspaced s ≡ true
    → all_bytes unspaced t ≡ true
    → all_bytes unspaced (s ++ t) ≡ true
unfolding all_bytes
unspaced-append [] t h k = k
unspaced-append (c ∷ s) t h k =
    let (here, more) = passing unspaced c s h in
    let rest = unspaced-append s t more k in ground (arith, here, rest)

resource-unspaced : (s : Bytes) → all_bytes is_resource_byte s ≡ true → all_bytes unspaced s ≡ true
unfolding all_bytes is_resource_byte unspaced is_space
resource-unspaced [] h = refl
resource-unspaced (c ∷ s) h =
    let (here, more) = passing is_resource_byte c s h in
    ground (arith, here, resource-unspaced s more)

join-unspaced : (ws : List Bytes) → All IsWord ws → all_bytes unspaced (join ws) ≡ true
unfolding all_bytes unspaced is_space
join-unspaced [] h = refl
join-unspaced (w ∷ ws) h =
    unspaced-append w (join ws) (resource-unspaced w h.0.1) (join-unspaced ws h.1)

valid_not_empty : (s : Bytes) → valid_resource s ≡ true → is_nil s ≡ false
unfolding valid_resource
valid_not_empty [] h = cc
valid_not_empty (c ∷ s) h = refl

valid-IsWord : (s : Bytes) → valid_resource s ≡ true → IsWord s
valid-IsWord s h = (valid_not_empty s h, unfold valid_resource in ground arith)

kind_word-IsWord : (kind : Kind) → IsWord (kind_word kind)
unfolding all_bytes is_resource_byte
kind_word-IsWord podcast = (refl, refl)
kind_word-IsWord series = (refl, refl)

season_words-AreWords : (s : Bytes) → empty_or_valid s ≡ true → All IsWord (season_words s)
unfolding all_bytes is_resource_byte
season_words-AreWords [] h = tt
season_words-AreWords (c ∷ s) h = ((refl, refl), (valid-IsWord (c ∷ s) h, tt))

episode_words-AreWords : (s : Bytes) → empty_or_valid s ≡ true → All IsWord (episode_words s)
episode_words-AreWords [] h = tt
episode_words-AreWords (c ∷ s) h = (valid-IsWord (c ∷ s) h, tt)

words-AreWords : (l : Link) → IsNamed l → All IsWord (words l)
words-AreWords l h = (
  kind_word-IsWord l.kind,
  (
    valid-IsWord l.series_id h.0,
    All-append IsWord (season_words l.season_id) (episode_words l.episode_id)
        (season_words-AreWords l.season_id h.1) (episode_words-AreWords l.episode_id h.2),
  ),
)

kind_of-word : (kind : Kind) → kind_of (kind_word kind) ≡ some kind
unfolding same
kind_of-word podcast = refl
kind_of-word series = refl

named-words :
    (season episode : Bytes)
    → (is_nil season && same episode (codes "sesong")) ≡ false
    → named (season_words season ++ episode_words episode) ≡ some (season, episode)
unfolding same
named-words [] [] h = refl
named-words [] (c ∷ e) h = rw h refl
named-words (c ∷ s) [] h = refl
named-words (c ∷ s) (d ∷ e) h = refl

link_of-words : (l : Link) → IsNamed l → link_of (words l) ≡ supported l
link_of-words l h = rw (kind_of-word l.kind) (
    rw (named-words l.season_id l.episode_id h.3)
      (rw h.0 (rw h.1 (rw h.2 (rw (valid_not_empty l.series_id h.0) refl)))))

parse-unspaced :
    (parse_url : Bytes → Option Url) (rest : Bytes)
    → all_bytes unspaced rest ≡ true
    → parse parse_url (codes "https://radio.nrk.no" ++ rest)
      ≡ of_url (parse_url (codes "https://radio.nrk.no" ++ rest))
unfolding parse has_scheme looks_like_link fold_from unspaced
parse-unspaced parse_url rest h =
    let plain : all_bytes unspaced (codes "https://radio.nrk.no" ++ rest) ≡ true =
      unspaced-append (codes "https://radio.nrk.no") rest refl h in
    rw (trim-unspaced (codes "https://radio.nrk.no" ++ rest) plain)
      (rw (blank-unspaced (codes "https://radio.nrk.no" ++ rest) plain) refl)

-- The text of a link is read back as that link, when url.Parse takes it apart as a URL.
pub parse-text_of :
    (parse_url : Bytes → Option Url) (l : Link)
    → IsNamed l
    → parse_url (text_of l)
      ≡ some (record {
        scheme = codes "https";
        has_user = false;
        hostname = codes "radio.nrk.no";
        port = [];
        escaped_path = join (words l);
      })
    → parse parse_url (text_of l) ≡ supported l
unfolding same to_lower fold_from
parse-text_of parse_url l h u =
    parse-unspaced parse_url (join (words l)) (join-unspaced (words l) (words-AreWords l h))
    ∙ ap of_url u
    ∙ ap link_of (
        segments-join (kind_word l.kind)
          (l.series_id ∷ (season_words l.season_id ++ episode_words l.episode_id))
          (words-AreWords l h))
    ∙ link_of-words l h
