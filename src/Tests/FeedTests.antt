-- ===== src/Tests/FeedTests.antt =====
-- internal/feedid on concrete ids.
use kringkasting.Base.{◌≡◌, refl, ◌↔◌, ◌⊎◌, true, false, Bytes, codes}
use kringkasting.Base.Ascii.{index, has_prefix}
use kringkasting.FeedId.{valid_resource, season, parse, valid}
use kringkasting.FeedId.RoundTrip.{parse-season, valid_iff}

abbrev show : Bytes
show = codes "supertroett"

show_valid : valid_resource show ≡ true
unfolding valid_resource
show_valid = refl

slash_invalid : valid (codes "a/b") ≡ false
unfolding valid index has_prefix
slash_invalid = refl

parse-season_example :
    parse (season show (codes "2024")) ≡ record { series_id = show; season_id = codes "2024" }
parse-season_example = parse-season show (codes "2024") show_valid

valid_iff_example : (valid show ≡ true) ↔ (
    (valid_resource show ≡ true)
    ⊎ ((a : Bytes) × (b : Bytes) × (valid_resource a ≡ true)
        × (valid_resource b ≡ true)
        × (show ≡ season a b)))
valid_iff_example = valid_iff show
