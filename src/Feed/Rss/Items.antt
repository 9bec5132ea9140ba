-- ===== src/Feed/Rss/Items.antt =====
-- What a reader of the feed finds in it.
use kringkasting.Base.{
  ℕ, ◌+◌, ◌<◌, ◌≡◌, refl, ap, ◌∙◌, true, false, Option, none, some, List, [], ◌∷◌, ◌++◌, map, arith,
  if◌then◌else◌, Bytes, codes, same,
}
use kringkasting.Base.Ascii.{all_bytes, is_digit}
use kringkasting.Store.{Episode, Series}
use kringkasting.FeedId
use kringkasting.Feed.Xml.{Attrs, Tag, Tags, text, node, no_tags, child}
use kringkasting.Feed.Xml.Reader.{
  clean, view_attrs, view_text, view, view_tags, named_attrs, named_tag, named_tags, Document,
  read_document,
}
use kringkasting.Feed.Xml.RoundTrip.{cost}
use kringkasting.Feed.Xml.Documents.{read_document-serialize}
use kringkasting.Feed.Rss.{
  carried, deref, tag_list, video_tags, image_tags, assemble_episode, channel, feed_root,
  declaration, stylesheet, assemble_feed,
}

abbrev pub tag_name : Tag → Bytes
tag_name (text name value attrs) = name
tag_name (node name tags attrs) = name

abbrev pub tag_value : Tag → Bytes
tag_value (text name value attrs) = value
tag_value (node name tags attrs) = []

abbrev pub tag_attrs : Tag → Attrs
tag_attrs (text name value attrs) = attrs
tag_attrs (node name tags attrs) = attrs

abbrev pub children : Tag → Tags
children (text name value attrs) = no_tags
children (node name tags attrs) = tags

-- The value of a text or an attribute by its name, empty where there is none.
abbrev pub attr_value : Bytes → Attrs → Bytes
attr_value key [] = []
attr_value key ((k, v) ∷ attrs) = let rest = attr_value key attrs in if same k key then v else rest

abbrev pub child_value : Bytes → Tags → Bytes
child_value name no_tags = []
child_value name (child t ts) =
    let rest = child_value name ts in if same (tag_name t) name then tag_value t else rest

abbrev pub child_attr : Bytes → Bytes → Tags → Bytes
child_attr name key no_tags = []
child_attr name key (child t ts) =
    let rest = child_attr name key ts in
    if same (tag_name t) name then attr_value key (tag_attrs t) else rest

-- An item, as a player sees it: its guid and what it downloads.
abbrev pub item_of : Tag → Bytes × Bytes
item_of t = (
  child_value (codes "guid") (children t),
  child_attr (codes "enclosure") (codes "url") (children t),
)

abbrev pub items : Tags → List (Bytes × Bytes)
items no_tags = []
items (child t ts) =
    let rest = items ts in if same (tag_name t) (codes "item") then item_of t ∷ rest else rest

-- The items of the first channel.
abbrev pub first_child : Tags → Tags
first_child no_tags = no_tags
first_child (child t ts) = children t

abbrev pub feed_items : Option Document → List (Bytes × Bytes)
feed_items none = []
feed_items (some d) = items (first_child (children d.root))

name-view_text : (name value : Bytes) (attrs : Attrs) → tag_name (view_text name attrs value) ≡ name
name-view_text name [] attrs = refl
name-view_text name (c ∷ value) attrs = refl

value-view_text :
    (name value : Bytes) (attrs : Attrs) → tag_value (view_text name attrs value) ≡ value
value-view_text name [] attrs = refl
value-view_text name (c ∷ value) attrs = refl

-- A text of another name is passed over.
value-other :
    (name other value : Bytes) (attrs : Attrs) (ts : Tags)
    → same other name ≡ false
    → child_value name (child (view_text other attrs value) ts) ≡ child_value name ts
value-other name other value attrs ts h = rw (name-view_text other value attrs) (rw h refl)

attr-other :
    (name key other value : Bytes) (attrs : Attrs) (ts : Tags)
    → same other name ≡ false
    → child_attr name key (child (view_text other attrs value) ts) ≡ child_attr name key ts
attr-other name key other value attrs ts h = rw (name-view_text other value attrs) (rw h refl)

items-other :
    (other value : Bytes) (attrs : Attrs) (ts : Tags)
    → same other (codes "item") ≡ false
    → items (child (view_text other attrs value) ts) ≡ items ts
items-other other value attrs ts h = rw (name-view_text other value attrs) (rw h refl)

declaration-named : named_attrs declaration ≡ true
unfolding named_attrs all_bytes is_digit
declaration-named = refl

stylesheet-named : named_attrs stylesheet ≡ true
unfolding named_attrs all_bytes is_digit
stylesheet-named = refl

named-video : (url : Option Bytes) → named_tags (tag_list (video_tags url)) ≡ true
unfolding named_tag tag_list named_attrs all_bytes is_digit
named-video none = refl
named-video (some url) = refl

named-image :
    (series : Series) (url : Bytes) (ts : List Tag)
    → named_tags (tag_list ts) ≡ true
    → named_tags (tag_list (image_tags series url ++ ts)) ≡ true
unfolding named_tag tag_list named_attrs all_bytes is_digit
named-image series [] ts h = h
named-image series (c ∷ url) ts h = h

module _ (http_date format_int : ℕ → Bytes) where
  item-assemble_episode :
      (series_id origin : Bytes) (e : Episode)
      → item_of (view (assemble_episode http_date format_int series_id origin e))
        ≡ (clean e.id, clean e.url)
  unfolding view assemble_episode tag_list same
  item-assemble_episode series_id origin e =
      rw (name-view_text (codes "title") (clean e.title) []) (
        rw (name-view_text (codes "link") (clean e.share_link) []) (
          rw (name-view_text (codes "description") (clean (deref e.subtitle)) []) (
            rw (name-view_text (codes "itunes:summary") (clean (deref e.subtitle)) []) (
              rw
                (name-view_text (codes "guid") (clean e.id)
                  ((codes "isPermaLink", codes "false") ∷ []))
                (rw
                  (value-view_text (codes "guid") (clean e.id)
                    ((codes "isPermaLink", codes "false") ∷ []))
                  (rw (name-view_text (codes "pubDate") (clean (http_date e.date)) []) (
                    rw
                      (name-view_text (codes "itunes:duration")
                        (clean (format_int e.duration_in_seconds)) [])
                      refl)))))))

  name-assemble_episode :
      (series_id origin : Bytes) (e : Episode)
      → tag_name (view (assemble_episode http_date format_int series_id origin e)) ≡ codes "item"
  unfolding view assemble_episode
  name-assemble_episode series_id origin e = refl

  items-image :
      (series : Series) (url : Bytes) (ts : List Tag)
      → items (view_tags (tag_list (image_tags series url ++ ts))) ≡ items (view_tags (tag_list ts))
  unfolding view tag_list same
  items-image series [] ts = refl
  items-image series (c ∷ url) ts = refl

  items-map :
      (series_id origin : Bytes) (es : List Episode)
      → items
          (view_tags (tag_list (map (assemble_episode http_date format_int series_id origin) es)))
        ≡ map (λ (e : Episode). (clean e.id, clean e.url)) es
  unfolding view tag_list same
  items-map series_id origin [] = refl
  items-map series_id origin (e ∷ es) =
      rw (name-assemble_episode series_id origin e)
        (rw (item-assemble_episode series_id origin e) (rw (items-map series_id origin es) refl))

  items-channel :
      (origin : Bytes) (series : Series)
      → items (view_tags (tag_list (channel http_date format_int origin series)))
        ≡ map (λ (e : Episode). (clean e.id, clean e.url)) (carried series)
  unfolding channel tag_list view same
  items-channel origin series =
      let series_id : Bytes = (FeedId.parse series.id).series_id in
      rw (name-view_text (codes "title") (clean series.title) []) (
        rw (name-view_text (codes "link") (clean series.link) []) (
          rw (name-view_text (codes "description") (clean (deref series.subtitle)) []) (
            items-image series series.image_url
              (map (assemble_episode http_date format_int series_id origin) (carried series))
            ∙ items-map series_id origin (carried series))))

  named-episode :
      (series_id origin : Bytes) (e : Episode)
      → named_tag (assemble_episode http_date format_int series_id origin e) ≡ true
  unfolding named_tag assemble_episode tag_list named_attrs all_bytes is_digit
  named-episode series_id origin e = named-video e.video_url

  named-episodes :
      (series_id origin : Bytes) (es : List Episode)
      → named_tags (tag_list (map (assemble_episode http_date format_int series_id origin) es))
        ≡ true
  unfolding named_tag tag_list
  named-episodes series_id origin [] = refl
  named-episodes series_id origin (e ∷ es) =
      rw (named-episode series_id origin e) (named-episodes series_id origin es)

  named-channel :
      (origin : Bytes) (series : Series)
      → named_tags (tag_list (channel http_date format_int origin series)) ≡ true
  unfolding channel tag_list named_tag named_attrs
  named-channel origin series =
      named-image series series.image_url
        (map (assemble_episode http_date format_int (FeedId.parse series.id).series_id origin)
          (carried series))
        (named-episodes (FeedId.parse series.id).series_id origin (carried series))

  named-root :
      (origin : Bytes) (series : Series)
      → named_tag (feed_root http_date format_int origin series) ≡ true
  unfolding feed_root named_tag named_attrs all_bytes is_digit
  named-root origin series = rw (named-channel origin series) refl

  items-root :
      (origin : Bytes) (series : Series) (d : Attrs) (s : Option Attrs)
      → feed_items (
          some (record {
            declaration = d;
            stylesheet = s;
            root = view (feed_root http_date format_int origin series);
          }))
        ≡ map (λ (e : Episode). (clean e.id, clean e.url)) (carried series)
  unfolding feed_root view
  items-root origin series d s = items-channel origin series

  -- A reader of the feed of a series finds one item for each episode that the feed carries, in their
  -- order, each with the episode's id as its guid and the episode's URL as its enclosure, cleaned of
  -- the characters that XML does not allow. The reader has enough fuel.
  pub feed_items-assemble_feed :
      (series : Series) (origin : Bytes) (f : ℕ)
      → 4 + cost (feed_root http_date format_int origin series) < f
      → feed_items (read_document f (assemble_feed http_date format_int series origin))
        ≡ map (λ (e : Episode). (clean e.id, clean e.url)) (carried series)
  unfolding assemble_feed
  feed_items-assemble_feed series origin f h =
      ap feed_items (
        read_document-serialize declaration (some stylesheet)
          (feed_root http_date format_int origin series) f declaration-named stylesheet-named
          (named-root origin series) (omega (arith, h)))
      ∙ items-root origin series (view_attrs declaration) (some (view_attrs stylesheet))
