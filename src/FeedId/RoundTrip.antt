-- ===== src/FeedId/RoundTrip.antt =====
-- Season ids parse back to their parts, and the valid ids are exactly those of the two forms.
use kringkasting.Base.{
  ℕ, suc, ◌+◌, ◌≡◌, refl, ap, ◌≢◌, ◌↔◌, ◌⊎◌, inl, inr, true, none, some, [], ◌∷◌, ◌++◌, arith,
  Option-cases, length, take, drop, All, Bytes, codes,
}
use kringkasting.Base.Ascii.{all_bytes, index, index_split, index-append, index_absent}
use kringkasting.FeedId.{
  Ref, is_resource_byte, valid_resource, separator, season, split_at, parse, valid,
}

slash_free : (s : Bytes) → all_bytes is_resource_byte s ≡ true → All (λ c. c ≢ 47) s
unfolding all_bytes is_resource_byte
slash_free [] h = tt
slash_free (c ∷ s) h = (ground arith, slash_free s (ground arith))

resource_slash_free : (s : Bytes) → valid_resource s ≡ true → All (λ c. c ≢ 47) s
resource_slash_free s h = slash_free s (unfold valid_resource in ground arith)

take-length-append : (s t : Bytes) → take (length s) (s ++ t) ≡ s
take-length-append [] t = refl
take-length-append (c ∷ s) t = ap (◌∷◌ c) (take-length-append s t)

drop-length-append : (s t : Bytes) (n : ℕ) → drop (length s + n) (s ++ t) ≡ drop n t
drop-length-append [] t n = let e : 0 + n ≡ n = omega arith in rw e
drop-length-append (c ∷ s) t n =
    let e : suc (length s) + n ≡ suc (length s + n) = omega arith in rw e (drop-length-append s t n)

split-season :
    (a b : Bytes)
    → split_at (a ++ (separator ++ b)) (some (length a)) ≡ record { series_id = a; season_id = b }
split-season a b = λ i. record {
  series_id = take-length-append a (separator ++ b) i;
  season_id = drop-length-append a (separator ++ b) (length separator) i;
}

index-season :
    (a b : Bytes) → valid_resource a ≡ true → index (season a b) separator ≡ some (length a)
unfolding season
index-season a b h = index-append a b (codes "sesong/") 47 (resource_slash_free a h)

-- A season id made from a valid series id parses back to the series and the season, whatever the
-- season's text.
pub parse-season :
    (series_id season_id : Bytes)
    → valid_resource series_id ≡ true
    → parse (season series_id season_id) ≡ record { series_id = series_id; season_id = season_id }
unfolding parse
parse-season a b h = rw (index-season a b h) (unfold season in split-season a b)

-- In a resource id there is no season to be found.
pub parse-resource : (s : Bytes) → valid_resource s ≡ true → index s separator ≡ none
parse-resource s h = index_absent s (codes "sesong/") 47 (resource_slash_free s h)

valid-season :
    (a b : Bytes) → valid_resource a ≡ true → valid_resource b ≡ true → valid (season a b) ≡ true
valid-season a b ha hb =
    let p = parse-season a b ha in
    unfold valid in ground (arith, ap (λ (r : Ref). r.series_id) p, ap (λ (r : Ref). r.season_id) p)

valid-resource : (s : Bytes) → valid_resource s ≡ true → valid s ≡ true
unfolding valid
valid-resource s h = ground (arith, parse-resource s h)

abbrev IsFeedId : Bytes → Type 0
IsFeedId f =
    (valid_resource f ≡ true)
    ⊎ ((a : Bytes) × (b : Bytes) × (valid_resource a ≡ true)
        × (valid_resource b ≡ true)
        × (f ≡ season a b))

IsFeedId-valid : (f : Bytes) → valid f ≡ true → IsFeedId f
IsFeedId-valid f h = elim (Option-cases (index f separator)) [
  | inl e ↦ inl (unfold valid in ground (arith))
  | inr (i, e) ↦ inr (
    take i f,
    drop (i + length separator) f,
    unfold valid in ground (arith),
    unfold valid in ground (arith),
    unfold season in index_split f separator i e,
  )
]

-- A feed id is valid exactly when it is a resource id, or the season id of two of them.
pub valid_iff :
    (feed_id : Bytes)
    → (valid feed_id ≡ true) ↔ (
        (valid_resource feed_id ≡ true)
        ⊎ ((a : Bytes) × (b : Bytes) × (valid_resource a ≡ true)
            × (valid_resource b ≡ true)
            × (feed_id ≡ season a b)))
valid_iff f = (
  IsFeedId-valid f,
  λ d. elim d [
    | inl h ↦ valid-resource f h
    | inr (a, b, ha, hb, e) ↦ rw e (valid-season a b ha hb)
  ],
)
