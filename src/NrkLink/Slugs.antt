-- ===== src/NrkLink/Slugs.antt =====
-- What a link that is taken is made of.
use mathlib.Core.Path.{subst}
use kringkasting.Base.{
  ◌≡◌, refl, inl, inr, Bool, true, false, not, ◌&&◌, ◌||◌, Option, none, some, List, [], ◌∷◌, arith,
  Bool-cases, All, Bytes, codes, same, both,
}
use kringkasting.Base.Ascii.{trim_space}
use kringkasting.FeedId.{valid_resource}
use kringkasting.NrkLink.{
  equal_fold, Kind, Link, Result, not_a_link, unsupported, supported, Url, supported_host, is_nil,
  split_slash, not_empty, segments, named, empty_or_valid, checked_link, kind_of, with_kind,
  link_of, is_known_port, is_accepted, of_url, with_scheme, has_blank, looks_like_link, parse,
}

-- A URL without user data, on the one host.
abbrev pub IsOnHost : Option Url → Type 0
IsOnHost o =
    (u : Url) × (o ≡ some u)
    × (equal_fold u.hostname (codes "radio.nrk.no") ≡ true)
    × (u.has_user ≡ false)

abbrev pub HasSlugs : Link → Type 0
HasSlugs l =
    (valid_resource l.series_id ≡ true)
    × (empty_or_valid l.season_id ≡ true)
    × (empty_or_valid l.episode_id ≡ true)

abbrev SlugsIn : Result → Type 0
SlugsIn not_a_link = Unit
SlugsIn unsupported = Unit
SlugsIn (supported l) = HasSlugs l

abbrev HostIn : Option Url → Result → Type 0
HostIn o not_a_link = Unit
HostIn o unsupported = Unit
HostIn o (supported l) = IsOnHost o

checked-SlugsIn :
    (kind : Kind) (id : Bytes) (o : Option (Bytes × Bytes))
    → is_nil id ≡ false
    → SlugsIn (checked_link kind id o)
checked-SlugsIn kind id none n = tt
checked-SlugsIn kind id (some (season, episode)) n =
    elim (Bool-cases (empty_or_valid id && empty_or_valid season && empty_or_valid episode)) [
      | inl y ↦ rw y (
          let (ids_ok, episode_ok) =
            both (empty_or_valid id && empty_or_valid season) (empty_or_valid episode) y in
          let (series_ok, season_ok) = both (empty_or_valid id) (empty_or_valid season) ids_ok in
          (ground (arith, n, series_ok), season_ok, episode_ok))
      | inr f ↦ rw f tt
    ]

AreFull : List Bytes → Type 0
AreFull ws = All (λ w. is_nil w ≡ false) ws

not_empty-AreFull : (ws : List Bytes) → AreFull (not_empty ws)
unfolding not_empty AreFull
not_empty-AreFull [] = tt
not_empty-AreFull (w ∷ ws) = elim (Bool-cases (is_nil w)) [
  | inl y ↦ rw y (not_empty-AreFull ws)
  | inr n ↦ rw n (n, not_empty-AreFull ws)
]

kind-SlugsIn :
    (o : Option Kind) (id : Bytes) (rest : List Bytes)
    → is_nil id ≡ false
    → SlugsIn (with_kind o id rest)
kind-SlugsIn none id rest n = tt
kind-SlugsIn (some kind) id rest n = checked-SlugsIn kind id (named rest) n

link_of-SlugsIn : (ws : List Bytes) → AreFull ws → SlugsIn (link_of ws)
unfolding AreFull
link_of-SlugsIn [] h = tt
link_of-SlugsIn (a ∷ []) h = tt
link_of-SlugsIn (a ∷ (id ∷ rest)) h = kind-SlugsIn (kind_of a) id rest h.1.0

accepted-HostIn : (u : Url) (r : Result) → is_accepted u ≡ true → HostIn (some u) r
accepted-HostIn u not_a_link h = tt
accepted-HostIn u unsupported h = tt
accepted-HostIn u (supported l) h =
    let https : Bool = same u.scheme (codes "https") || same u.scheme (codes "http") in
    let on_host : Bool = equal_fold u.hostname supported_host in
    let (checks, port) = both ((https && on_host) && not u.has_user) (is_known_port u.port) h in
    let (place, user) = both (https && on_host) (not u.has_user) checks in
    (u, refl, (both https on_host place).1, ground (arith, user))

of_url-SlugsIn : (o : Option Url) → SlugsIn (of_url o) × HostIn o (of_url o)
unfolding segments
of_url-SlugsIn none = (tt, tt)
of_url-SlugsIn (some u) = elim (Bool-cases (is_accepted u)) [
  | inl y ↦ rw y (
    link_of-SlugsIn (segments u.escaped_path) (not_empty-AreFull (split_slash u.escaped_path)),
    accepted-HostIn u (link_of (segments u.escaped_path)) y,
  )
  | inr n ↦ rw n (tt, tt)
]

parse-SlugsIn :
    (parse_url : Bytes → Option Url) (query : Bytes)
    → SlugsIn (parse parse_url query)
      × HostIn (parse_url (with_scheme (trim_space query))) (parse parse_url query)
unfolding parse
parse-SlugsIn parse_url query =
    let s : Bytes = trim_space query in
    elim (Bool-cases ((is_nil s || has_blank s) || not (looks_like_link s))) [
      | inl y ↦ rw y (tt, tt)
      | inr n ↦ rw n (of_url-SlugsIn (parse_url (with_scheme s)))
    ]

-- Every link that is taken from a query has slugs of NRK as its ids, and its URL has no user data
-- and a host that is radio.nrk.no up to the case of letters, as EqualFold compares them.
pub parse-HasSlugs :
    (parse_url : Bytes → Option Url) (query : Bytes) (l : Link)
    → parse parse_url query ≡ supported l
    → HasSlugs l × IsOnHost (parse_url (with_scheme (trim_space query)))
unfolding parse
parse-HasSlugs parse_url query l h =
    subst (λ r. SlugsIn r × HostIn (parse_url (with_scheme (trim_space query))) r) h
      (parse-SlugsIn parse_url query)
