-- ===== src/NrkLink.antt =====
-- internal/nrklink/nrklink.go: links pasted into the search field. A text is bytes, and white space
-- is that of ASCII. `parse_url` stands for url.Parse, and its result for what the code reads of it.
pub mod Forms
pub mod Slugs
use kringkasting.Base.{
  ℕ, zero, suc, ◌+◌, ◌-◌, ◌*◌, ◌/◌, ◌%◌, ◌^◌, ◌≤◌, ◌<◌, min, max, String, ◌≡◌, refl, sym, ap, ◌∙◌,
  ◌≢◌, ◌↔◌, ◌⊎◌, inl, inr, Bool, true, false, not, ◌&&◌, ◌||◌, Option, none, some, List, [], ◌∷◌,
  ◌++◌, map, append_assoc, append-nil, arith, ltb, leb, ◌==◌, if◌then◌else◌, ltb→lt, lt→ltb, leb→le,
  le→leb, ==_iff, Bool-cases, Option-cases, length, get_elem?, set, take, drop, length-append,
  length-take-le, length-drop, All, All-append, All-left, All-right, Bytes, codes, same, same_iff,
  same_refl, append_cancel_left, differ, All-middle, All-map,
}
use kringkasting.Base.Ascii.{
  trim_space, all_bytes, is_digit, is_space, has_prefix, to_lower, is_letter, run_of,
}
use kringkasting.FeedId.{valid_resource}

-- `Kind`
pub data Kind : Type 0 where
  podcast series : Kind

-- `Link`; an id that the link does not name is empty
pub record Link : Type 0 where
  pub kind : Kind
  pub series_id : Bytes
  pub season_id : Bytes
  pub episode_id : Bytes

-- `Result`, with the link that comes with it
pub data Result : Type 0 where
  not_a_link unsupported : Result
  supported : Link → Result

-- What is read of a `url.URL`; the scheme is in lower case.
pub record Url : Type 0 where
  pub scheme : Bytes
  pub has_user : Bool
  pub hostname : Bytes
  pub port : Bytes
  pub escaped_path : Bytes

abbrev pub supported_host : Bytes
supported_host = codes "radio.nrk.no"

-- [a-z0-9+.-]
abbrev pub is_scheme_byte : ℕ → Bool
is_scheme_byte c = is_letter c || is_digit c || c == 43 || c == 46 || c == 45

-- [a-z0-9-]
abbrev pub is_host_byte : ℕ → Bool
is_host_byte c = is_letter c || is_digit c || c == 45

-- U+212A, the sign for kelvin, and U+017F, the long s: the characters beyond ASCII that `(?i)` and
-- EqualFold take for a letter of ASCII, a k and an s.
abbrev pub kelvin_sign : Bytes
kelvin_sign = 226 ∷ 132 ∷ 170 ∷ []

abbrev pub long_s : Bytes
long_s = 197 ∷ 191 ∷ []

-- The text with those replaced; the number is how many bytes of one are still to be left out.
unfoldable pub fold_from : ℕ → Bytes → Bytes
unfolding has_prefix
fold_from n [] = []
fold_from (suc n) (c ∷ s) = fold_from n s
fold_from zero (c ∷ s) = elim (has_prefix (c ∷ s) kelvin_sign) [
  | true ↦ 107 ∷ fold_from 2 s
  | false ↦ elim (has_prefix (c ∷ s) long_s) [
    | true ↦ 115 ∷ fold_from 1 s
    | false ↦ c ∷ fold_from zero s
  ]
]

-- strings.EqualFold with a text of ASCII in lower case
abbrev pub equal_fold : Bytes → Bytes → Bool
equal_fold s t = same (to_lower (fold_from 0 s)) t

abbrev pub scheme_at : Bytes → Bool
scheme_at [] = false
scheme_at (c ∷ s) = is_letter c && has_prefix (run_of is_scheme_byte s).1 (codes "://")

-- The pattern `scheme`
unfoldable pub has_scheme : Bytes → Bool
unfolding run_of is_digit has_prefix fold_from
has_scheme s = scheme_at (fold_from 0 s)

abbrev pub is_nil : Bytes → Bool
is_nil [] = true
is_nil (c ∷ s) = false

-- What follows the labels: an optional port, and a slash.
abbrev after_host : Bytes → Bool
after_host [] = false
after_host (c ∷ s) =
    let (digits, rest) = run_of is_digit s in
    c == 47 || (c == 58 && not (is_nil digits) && has_prefix rest (codes "/"))

-- The labels of a host, at least two: whether a dot has come, and whether the label has a byte.
unfoldable pub host_from : Bool → Bool → Bytes → Bool
unfolding run_of is_digit has_prefix
host_from dotted labelled [] = false
host_from dotted labelled (c ∷ s) =
    let same_label = host_from dotted true s in
    let next_label = host_from true false s in
    if is_host_byte c
    then same_label
    else if c == 46 && labelled
    then next_label
    else dotted && labelled && after_host (c ∷ s)

-- `looksLikeLink`; the `www.` that the pattern names is a label like the others
unfoldable pub looks_like_link : Bytes → Bool
unfolding has_scheme host_from fold_from
looks_like_link s = has_scheme s || host_from false false (fold_from 0 s)

-- strings.ContainsAny(s, " \t\n")
abbrev is_blank : ℕ → Bool
is_blank c = c == 32 || c == 9 || c == 10

unfoldable pub has_blank : Bytes → Bool
has_blank [] = false
has_blank (c ∷ s) = is_blank c || has_blank s

-- strings.Split(path, "/")
abbrev pub prepend : ℕ → List Bytes → List Bytes
prepend c [] = (c ∷ []) ∷ []
prepend c (word ∷ words) = (c ∷ word) ∷ words

unfoldable pub split_slash : Bytes → List Bytes
split_slash [] = [] ∷ []
split_slash (c ∷ s) = let rest = split_slash s in if c == 47 then [] ∷ rest else prepend c rest

unfoldable pub not_empty : List Bytes → List Bytes
not_empty [] = []
not_empty (word ∷ words) = let rest = not_empty words in if is_nil word then rest else word ∷ rest

unfoldable pub segments : Bytes → List Bytes
unfolding split_slash not_empty
segments path = not_empty (split_slash path)

-- The season and the episode that the rest of the path names.
abbrev pub named : List Bytes → Option (Bytes × Bytes)
named [] = some ([], [])
named (a ∷ []) = if same a (codes "sesong") then none else some ([], a)
named (a ∷ (b ∷ [])) = if same a (codes "sesong") then some (b, []) else none
named (a ∷ (b ∷ (c ∷ []))) = if same a (codes "sesong") then some (b, c) else none
named (a ∷ (b ∷ (c ∷ (d ∷ rest)))) = none

abbrev pub empty_or_valid : Bytes → Bool
empty_or_valid id = is_nil id || valid_resource id

abbrev pub checked_link : Kind → Bytes → Option (Bytes × Bytes) → Result
checked_link kind id none = unsupported
checked_link kind id (some (season, episode)) =
    if empty_or_valid id && empty_or_valid season && empty_or_valid episode
    then supported
        (record { kind = kind; series_id = id; season_id = season; episode_id = episode })
    else unsupported

abbrev pub kind_of : Bytes → Option Kind
kind_of word =
    if same word (codes "podkast")
    then some podcast
    else if same word (codes "serie")
    then some series
    else none

abbrev with_kind : Option Kind → Bytes → List Bytes → Result
with_kind none id rest = unsupported
with_kind (some kind) id rest = checked_link kind id (named rest)

abbrev pub link_of : List Bytes → Result
link_of [] = unsupported
link_of (a ∷ []) = unsupported
link_of (a ∷ (id ∷ rest)) = with_kind (kind_of a) id rest

abbrev pub is_known_port : Bytes → Bool
is_known_port port = is_nil port || same port (codes "443") || same port (codes "80")

abbrev pub is_accepted : Url → Bool
is_accepted u =
    (same u.scheme (codes "https") || same u.scheme (codes "http"))
    && equal_fold u.hostname supported_host
    && not u.has_user
    && is_known_port u.port

abbrev pub of_url : Option Url → Result
of_url none = unsupported
of_url (some u) = if is_accepted u then link_of (segments u.escaped_path) else unsupported

abbrev pub with_scheme : Bytes → Bytes
with_scheme s = if has_scheme s then s else codes "https://" ++ s

-- `Parse`
unfoldable pub parse : (Bytes → Option Url) → Bytes → Result
unfolding trim_space has_blank looks_like_link segments to_lower fold_from valid_resource
parse parse_url query =
    let s = trim_space query in
    if (is_nil s || has_blank s) || not (looks_like_link s)
    then not_a_link
    else of_url (parse_url (with_scheme s))
