-- ===== src/Tests/RssTests.antt =====
-- internal/feed/xml.go and rss.go: a text that tries to end its tag, and a feed of two episodes.
use kringkasting.Base.{
  ℕ, ◌+◌, ◌≡◌, refl, true, false, none, some, [], ◌∷◌, map, arith, Bytes, codes,
}
use kringkasting.Base.Ascii.{all_bytes, is_digit}
use kringkasting.Store.{Episode, Series, CatalogKind}
use kringkasting.Feed.Xml.{Tag, text, node, no_tags, child, serialize}
use kringkasting.Feed.Xml.Reader.{named_tag, named_attrs, view, view_attrs, clean, read_document}
use kringkasting.Feed.Xml.RoundTrip.{cost}
use kringkasting.Feed.Xml.Documents.{read_document-serialize}
use kringkasting.Feed.Rss.{carried, feed_root, assemble_feed, declaration}
use kringkasting.Feed.Rss.Items.{feed_items, feed_items-assemble_feed}

abbrev hostile : Tag
hostile =
    node (codes "item")
      (child (text (codes "title") (codes "</title><script>&") ((codes "a", codes "\" b='") ∷ []))
        no_tags)
      []

read_document-serialize_example :
    read_document 40 (serialize declaration none hostile)
    ≡ some (record { declaration = view_attrs declaration; stylesheet = none; root = view hostile })
unfolding named_tag named_attrs all_bytes is_digit cost
read_document-serialize_example =
    read_document-serialize declaration none hostile 40 refl refl refl (omega arith)

abbrev aired : Bytes → Bytes → Episode
aired id url = record {
  id = id;
  title = codes "Mat & prat";
  subtitle = none;
  url = url;
  share_link = [];
  date = 5;
  duration_in_seconds = 60;
  bytes = none;
  clip_id = none;
  video_url = none;
}

abbrev small_series : Series
small_series = record {
  id = codes "mat";
  title = codes "Mat";
  subtitle = none;
  link = codes "https://radio.nrk.no/podkast/mat";
  image_url = [];
  last_fetched_at = 7;
  backlog_complete = true;
  backlog_cursor = none;
  catalog_kind = some CatalogKind.podcast;
  is_umbrella = false;
  metadata_refreshed_at = none;
  episodes = aired (codes "b") (codes "b.mp3") ∷ (aired (codes "a") (codes "a.m3u8") ∷ []);
  version = 3;
}

abbrev plain : ℕ → Bytes
plain n = codes "0"

feed_items-assemble_feed_example :
    feed_items (
      read_document
        (5 + cost (feed_root plain plain (codes "https://x.no") small_series))
        (assemble_feed plain plain small_series (codes "https://x.no")))
    ≡ map (λ (e : Episode). (clean e.id, clean e.url)) (carried small_series)
feed_items-assemble_feed_example =
    feed_items-assemble_feed plain plain small_series (codes "https://x.no")
      (5 + cost (feed_root plain plain (codes "https://x.no") small_series)) (omega arith)
