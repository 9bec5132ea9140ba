-- ===== src/Feed/Xml.antt =====
-- internal/feed/xml.go: the XML writer. A tag whose children are nil is `text`, one with a list of
-- children is `node`. What the program streams into a builder is the text itself here.
pub mod Reader
pub mod Escape
pub mod Heads
pub mod Contents
pub mod RoundTrip
pub mod Documents
use kringkasting.Base.{
  ℕ, zero, suc, ◌+◌, ◌-◌, ◌*◌, ◌/◌, ◌%◌, ◌^◌, ◌≤◌, ◌<◌, min, max, String, ◌≡◌, refl, sym, ap, ◌∙◌,
  ◌≢◌, ◌↔◌, ◌⊎◌, inl, inr, Bool, true, false, not, ◌&&◌, ◌||◌, Option, none, some, List, [], ◌∷◌,
  ◌++◌, map, append_assoc, append-nil, arith, ltb, leb, ◌==◌, if◌then◌else◌, ltb→lt, lt→ltb, leb→le,
  le→leb, ==_iff, Bool-cases, Option-cases, length, get_elem?, set, take, drop, length-append,
  length-take-le, length-drop, All, All-append, All-left, All-right, Bytes, codes, same, same_iff,
  same_refl, append_cancel_left, differ, All-middle, All-map,
}
use kringkasting.Base.Ascii.{has_prefix}

-- Keys with values, in order.
abbrev pub Attrs : Type 0
Attrs = List (Bytes × Bytes)

mutual
  pub data Tag : Type 0 where
    text : Bytes → Bytes → Attrs → Tag
    node : Bytes → Tags → Attrs → Tag

  pub data Tags : Type 0 where
    no_tags : Tags
    child : Tag → Tags → Tags

-- Control characters that XML 1.0 does not allow
abbrev pub is_dropped : ℕ → Bool
is_dropped c = ltb c 32 && not (c == 9 || c == 10 || c == 13)

-- U+FFFE and U+FFFF, in UTF-8
unfoldable pub begins_nonchar : Bytes → Bool
unfolding has_prefix
begins_nonchar s =
    has_prefix s (239 ∷ (191 ∷ (190 ∷ []))) || has_prefix s (239 ∷ (191 ∷ (191 ∷ [])))

-- The replacement of one byte; the quotes only in attributes.
unfoldable pub piece : Bool → ℕ → Bytes
piece in_attr c =
    if c == 38
    then codes "&amp;"
    else if c == 60
    then codes "&lt;"
    else if c == 62
    then codes "&gt;"
    else if in_attr && c == 34
    then codes "&quot;"
    else if in_attr && c == 39
    then codes "&apos;"
    else if is_dropped c
    then []
    else c ∷ []

-- The replacer, with the number of bytes of a character that it is dropping.
unfoldable pub escape_from : Bool → ℕ → Bytes → Bytes
unfolding begins_nonchar piece
escape_from in_attr k [] = []
escape_from in_attr (suc k) (c ∷ s) = escape_from in_attr k s
escape_from in_attr zero (c ∷ s) =
    let past = escape_from in_attr 2 s in
    let more = escape_from in_attr 0 s in
    if begins_nonchar (c ∷ s) then past else piece in_attr c ++ more

-- `textEscaper` and `attrEscaper`
unfoldable pub escape_text : Bytes → Bytes
unfolding escape_from
escape_text s = escape_from false 0 s

unfoldable pub escape_attr : Bytes → Bytes
unfolding escape_from
escape_attr s = escape_from true 0 s

unfoldable pub write_attrs : Attrs → Bytes
unfolding escape_attr
write_attrs [] = []
write_attrs ((key, value) ∷ attrs) =
    codes " " ++ (key ++ (codes "=\"" ++ (escape_attr value ++ (codes "\"" ++ write_attrs attrs))))

-- The end of a tag: it closes itself when it has no content.
abbrev pub write_content : Bytes → Option Bytes → Bytes
write_content name none = codes "/>"
write_content name (some inner) = codes ">" ++ (inner ++ (codes "</" ++ (name ++ codes ">")))

abbrev pub text_content : Bytes → Option Bytes
text_content [] = none
text_content (c ∷ s) = some (escape_text (c ∷ s))

abbrev pub node_content : Tags → Bytes → Option Bytes
node_content no_tags inner = none
node_content (child t ts) inner = some inner

-- `writeTag`
unfoldable mutual
  unfolding escape_text write_attrs

  pub write_tag : Tag → Bytes
  write_tag (text name value attrs) =
      codes "<" ++ (name ++ (write_attrs attrs ++ write_content name (text_content value)))
  write_tag (node name tags attrs) =
      codes "<"
      ++ (name ++ (write_attrs attrs ++ write_content name (node_content tags (write_tags tags))))

  pub write_tags : Tags → Bytes
  write_tags no_tags = []
  write_tags (child t ts) = write_tag t ++ write_tags ts

abbrev pub write_stylesheet : Option Attrs → Bytes → Bytes
write_stylesheet none rest = rest
write_stylesheet (some attrs) rest =
    codes "<?xml-stylesheet" ++ (write_attrs attrs ++ (codes "?>" ++ rest))

unfoldable pub serialize : Attrs → Option Attrs → Tag → Bytes
unfolding write_attrs write_tag
serialize declaration stylesheet root =
    codes "<?xml"
    ++ (write_attrs declaration ++ (codes "?>" ++ write_stylesheet stylesheet (write_tag root)))
