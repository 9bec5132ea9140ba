-- ===== src/Feed/Rss.antt =====
-- internal/feed/rss.go: the RSS document of a series. `http_date` stands for the formatting of a date
-- with net/http's layout, and `format_int` for strconv.FormatInt.
pub mod Items
use kringkasting.Base.{
  ℕ, zero, suc, ◌+◌, ◌-◌, ◌*◌, ◌/◌, ◌%◌, ◌^◌, ◌≤◌, ◌<◌, min, max, String, ◌≡◌, refl, sym, ap, ◌∙◌,
  ◌≢◌, ◌↔◌, ◌⊎◌, inl, inr, Bool, true, false, not, ◌&&◌, ◌||◌, Option, none, some, List, [], ◌∷◌,
  ◌++◌, map, append_assoc, append-nil, arith, ltb, leb, ◌==◌, if◌then◌else◌, ltb→lt, lt→ltb, leb→le,
  le→leb, ==_iff, Bool-cases, Option-cases, length, get_elem?, set, take, drop, length-append,
  length-take-le, length-drop, All, All-append, All-left, All-right, Bytes, codes, same, same_iff,
  same_refl, append_cancel_left, differ, All-middle, All-map,
}
use kringkasting.Store.{Episode, Series}
use kringkasting.Nrk.{is_hls}
use kringkasting.FeedId
use kringkasting.Feed.Xml.{Attrs, Tag, Tags, text, node, no_tags, child, serialize}

-- `IsStreamOnly`
unfoldable pub all_hls : List Episode → Bool
unfolding is_hls
all_hls [] = true
all_hls (e ∷ es) = is_hls e.url && all_hls es

abbrev pub is_empty_list {ℓ} : {A : Type ℓ} → List A → Bool
is_empty_list [] = true
is_empty_list (x ∷ xs) = false

unfoldable pub is_stream_only : Series → Bool
unfolding all_hls
is_stream_only series = not (is_empty_list series.episodes) && all_hls series.episodes

unfoldable pub downloads : List Episode → List Episode
unfolding is_hls
downloads [] = []
downloads (e ∷ es) = let rest = downloads es in if is_hls e.url then rest else e ∷ rest

-- The episodes that the feed carries.
unfoldable pub carried : Series → List Episode
unfolding is_stream_only downloads
carried series = if is_stream_only series then series.episodes else downloads series.episodes

-- `deref`
abbrev pub deref : Option Bytes → Bytes
deref none = []
deref (some s) = s

abbrev or_zero_bytes : Option ℕ → ℕ
or_zero_bytes none = 0
or_zero_bytes (some n) = n

abbrev pub stylesheet_path : Bytes
stylesheet_path = codes "/feed.css"

unfoldable pub tag_list : List Tag → Tags
tag_list [] = no_tags
tag_list (t ∷ ts) = child t (tag_list ts)

abbrev pub media_type : Bytes → Bytes
media_type url = if is_hls url then codes "application/vnd.apple.mpegurl" else codes "audio/mpeg"

abbrev pub video_tags : Option Bytes → List Tag
video_tags none = []
video_tags (some url) =
    node (codes "podcast:alternateEnclosure")
      (child (text (codes "podcast:source") [] ((codes "uri", url) ∷ [])) no_tags)
      ((codes "type", codes "application/x-mpegURL")
        ∷ ((codes "length", codes "0")
            ∷ ((codes "lang", codes "no") ∷ ((codes "title", codes "Video") ∷ []))))
    ∷ []

abbrev pub image_tags : Series → Bytes → List Tag
image_tags series [] = []
image_tags series (c ∷ url) =
    text (codes "itunes:image") [] ((codes "href", c ∷ url) ∷ [])
    ∷ (node (codes "image")
          (child (text (codes "url") (c ∷ url) []) (
            child (text (codes "title") series.title [])
              (child (text (codes "link") series.link []) no_tags)))
          []
        ∷ [])

abbrev pub declaration : Attrs
declaration = (codes "version", codes "1.0") ∷ ((codes "encoding", codes "UTF-8") ∷ [])

abbrev pub stylesheet : Attrs
stylesheet = (codes "type", codes "text/css") ∷ ((codes "href", stylesheet_path) ∷ [])

module _ (http_date format_int : ℕ → Bytes) where
  -- `assembleEpisode`
  unfoldable pub assemble_episode : Bytes → Bytes → Episode → Tag
  unfolding tag_list is_hls
  assemble_episode series_id origin e =
      node (codes "item")
        (tag_list (
          text (codes "title") e.title []
          ∷ (text (codes "link") e.share_link []
              ∷ (text (codes "description") (deref e.subtitle) []
                  ∷ (text (codes "itunes:summary") (deref e.subtitle) []
                      ∷ (text (codes "guid") e.id ((codes "isPermaLink", codes "false") ∷ [])
                          ∷ (text (codes "pubDate") (http_date e.date) []
                              ∷ (text (codes "itunes:duration") (format_int e.duration_in_seconds)
                                    []
                                  ∷ (text (codes "podcast:chapters") [] (
                                        (
                                          codes "url",
                                          origin
                                              ++ (codes "/api/feeds/"
                                                  ++ (series_id
                                                      ++ (codes "/"
                                                          ++ (e.id ++ codes "/chapters")))),
                                        )
                                        ∷ ((codes "type", codes "application/json+chapters") ∷ []))
                                      ∷ (text (codes "enclosure") [] (
                                            (codes "url", e.url)
                                            ∷ ((codes "length", format_int (or_zero_bytes e.bytes))
                                                ∷ ((codes "type", media_type e.url) ∷ [])))
                                          ∷ video_tags e.video_url))))))))))
        []

  abbrev pub channel_head : Bytes → Series → List Tag
  channel_head origin series =
      text (codes "title") series.title []
      ∷ (text (codes "link") series.link []
          ∷ (text (codes "language") (codes "no") []
              ∷ (text (codes "atom:link") [] (
                    (codes "href", origin ++ (codes "/api/feeds/" ++ series.id))
                    ∷ ((codes "rel", codes "self")
                        ∷ ((codes "type", codes "application/rss+xml") ∷ [])))
                  ∷ (text (codes "itunes:author") (codes "NRK") []
                      ∷ (text (codes "itunes:explicit") (codes "false") []
                          ∷ (text (codes "itunes:category") []
                                ((codes "text", codes "Government") ∷ [])
                              ∷ (node (codes "itunes:owner")
                                    (child (text (codes "itunes:name") (codes "NRK") []) (
                                      child
                                        (text (codes "itunes:email") (codes "nrkpodcast@nrk.no") [])
                                        no_tags))
                                    []
                                  ∷ (text (codes "description") (deref series.subtitle) []
                                      ∷ (text (codes "ttl") (codes "60") [] ∷ [])))))))))

  unfoldable pub channel : Bytes → Series → List Tag
  unfolding assemble_episode carried FeedId.parse
  channel origin series =
      channel_head origin series
      ++ (image_tags series series.image_url
          ++ map (assemble_episode (FeedId.parse series.id).series_id origin) (carried series))

  unfoldable pub feed_root : Bytes → Series → Tag
  unfolding channel tag_list
  feed_root origin series =
      node (codes "rss")
        (child (node (codes "channel") (tag_list (channel origin series)) []) no_tags)
        ((codes "version", codes "2.0")
          ∷ ((codes "xmlns:itunes", codes "http://www.itunes.com/dtds/podcast-1.0.dtd")
              ∷ ((codes "xmlns:content", codes "http://purl.org/rss/1.0/modules/content/")
                  ∷ ((codes "xmlns:podcast", codes "https://podcastindex.org/namespace/1.0")
                      ∷ ((codes "xmlns:atom", codes "http://www.w3.org/2005/Atom") ∷ [])))))

  -- `AssembleFeed`
  unfoldable pub assemble_feed : Series → Bytes → Bytes
  unfolding feed_root serialize
  assemble_feed series origin = serialize declaration (some stylesheet) (feed_root origin series)
