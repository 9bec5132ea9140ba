-- ===== src/FeedId.antt =====
-- internal/feedid/feedid.go: the identity of a feed, a whole series or one season of it.
pub mod RoundTrip
use kringkasting.Base.{
  ℕ, ◌+◌, Bool, false, not, ◌&&◌, ◌||◌, Option, none, some, [], ◌++◌, leb, ◌==◌, if◌then◌else◌,
  length, take, drop, Bytes, codes,
}
use kringkasting.Base.Ascii.{all_bytes, index, contains}

-- [a-zA-Z0-9_-]
unfoldable pub is_resource_byte : ℕ → Bool
is_resource_byte c =
    (leb b'a' c && leb c b'z')
    || (leb b'A' c && leb c b'Z')
    || (leb b'0' c && leb c b'9')
    || c == b'_'
    || c == b'-'

abbrev pub separator : Bytes
separator = codes "/sesong/"

-- `ValidResource`: one to a hundred of these bytes
unfoldable pub valid_resource : Bytes → Bool
unfolding is_resource_byte all_bytes
valid_resource id = leb 1 (length id) && leb (length id) 100 && all_bytes is_resource_byte id

unfoldable pub season : Bytes → Bytes → Bytes
season series_id season_id = series_id ++ (separator ++ season_id)

pub record Ref : Type 0 where
  pub series_id : Bytes
  pub season_id : Bytes

-- `Parse`, once the separator has been looked for
abbrev pub split_at : Bytes → Option ℕ → Ref
split_at feed_id none = record { series_id = feed_id; season_id = [] }
split_at feed_id (some i) = record {
  series_id = take i feed_id;
  season_id = drop (i + length separator) feed_id;
}

unfoldable pub parse : Bytes → Ref
parse feed_id = split_at feed_id (index feed_id separator)

unfoldable pub valid : Bytes → Bool
unfolding parse contains valid_resource
valid feed_id =
    let ref = parse feed_id in
    if valid_resource ref.series_id
    then not (contains feed_id separator) || valid_resource ref.season_id
    else false
