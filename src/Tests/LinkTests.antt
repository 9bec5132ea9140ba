-- ===== src/Tests/LinkTests.antt =====
-- internal/nrklink: a pasted link, with a URL parser that knows this one link.
use kringkasting.Base.{true, ◌∷◌, ◌++◌, ◌≡◌, refl, false, Option, some, [], Bytes, codes, same}
use kringkasting.Base.Ascii.{has_prefix, trim_space, to_lower, all_bytes}
use kringkasting.FeedId.{is_resource_byte, valid_resource}
use kringkasting.NrkLink.{
  fold_from, equal_fold, Link, podcast, Url, supported, parse, with_scheme, has_blank,
  looks_like_link, segments,
}
use kringkasting.NrkLink.Forms.{text_of, join, words, parse-text_of}
use kringkasting.NrkLink.Slugs.{HasSlugs, IsOnHost, parse-HasSlugs}

abbrev episode_link : Link
episode_link = record {
  kind = podcast;
  series_id = codes "musikkhistorier";
  season_id = codes "miles-davis";
  episode_id = codes "l_b3";
}

abbrev known_url : Bytes → Option Url
known_url text = some (record {
  scheme = codes "https";
  has_user = false;
  hostname = codes "radio.nrk.no";
  port = [];
  escaped_path = join (words episode_link);
})

parse-text_of_example : parse known_url (text_of episode_link) ≡ supported episode_link
unfolding valid_resource all_bytes is_resource_byte same
parse-text_of_example = parse-text_of known_url episode_link (refl, refl, refl, refl) refl

-- The same link as it may be pasted.
abbrev pasted : Bytes
pasted = codes "  radio.nrk.no/podkast/musikkhistorier "

parse-HasSlugs_example :
    HasSlugs episode_link × IsOnHost (known_url (with_scheme (trim_space pasted)))
unfolding parse looks_like_link trim_space has_blank segments valid_resource to_lower fold_from same
parse-HasSlugs_example = parse-HasSlugs known_url pasted episode_link refl

-- A host that is not radio.nrk.no byte for byte: its k is the sign for kelvin.
kelvin_host :
    equal_fold (codes "Radio.nr" ++ (226 ∷ 132 ∷ 170 ∷ codes ".no")) (codes "radio.nrk.no") ≡ true
unfolding to_lower fold_from same has_prefix
kelvin_host = refl
