-- ===== src/Feed/Xml/Reader.antt =====
-- A reader of XML, written apart from the writer: names, attributes, text with the five entities,
-- and what a tag of the writer means to a reader.
use kringkasting.Base.{
  ℕ, zero, suc, Bool, true, false, not, ◌&&◌, ◌||◌, Option, none, some, [], ◌∷◌, ◌++◌, leb, ◌==◌,
  if◌then◌else◌, length, drop, Bytes, codes,
}
use kringkasting.Base.Ascii.{has_prefix, run_of, is_letter, is_digit, all_bytes}
use kringkasting.Feed.Xml.{Attrs, Tag, Tags, text, node, no_tags, child, is_dropped, begins_nonchar}

-- What follows a given text.
unfoldable pub strip : Bytes → Bytes → Option Bytes
unfolding has_prefix
strip p s = if has_prefix s p then some (drop (length p) s) else none

abbrev pub and_then {ℓ κ} : {A : Type ℓ} {B : Type κ} → Option A → (A → Option B) → Option B
and_then none f = none
and_then (some a) f = f a

abbrev pub is_name_byte : ℕ → Bool
is_name_byte c = is_letter c || is_digit c || c == 58 || c == 45 || c == 95 || c == 46

abbrev pub is_not_quote : ℕ → Bool
is_not_quote c = not (c == 34)

abbrev pub is_not_open : ℕ → Bool
is_not_open c = not (c == 60)

-- The byte that an entity stands for, and how many more bytes name it.
unfoldable pub entity : Bytes → ℕ × ℕ
unfolding has_prefix
entity s =
    if has_prefix s (codes "amp;")
    then (38, 4)
    else if has_prefix s (codes "lt;")
    then (60, 3)
    else if has_prefix s (codes "gt;")
    then (62, 3)
    else if has_prefix s (codes "quot;")
    then (34, 5)
    else if has_prefix s (codes "apos;")
    then (39, 5)
    else (38, 0)

unfoldable pub decode_from : ℕ → Bytes → Bytes
unfolding entity
decode_from k [] = []
decode_from (suc k) (c ∷ s) = decode_from k s
decode_from zero (c ∷ s) =
    let after = decode_from (entity s).1 s in
    let more = decode_from 0 s in if c == 38 then (entity s).0 ∷ after else c ∷ more

unfoldable pub decode : Bytes → Bytes
unfolding decode_from
decode s = decode_from 0 s

unfoldable pub read_attrs : ℕ → Bytes → Option (Attrs × Bytes)
unfolding strip run_of decode is_digit
read_attrs zero s = none
read_attrs (suc f) s = elim (strip (codes " ") s) [
  | none ↦ some ([], s)
  | some s1 ↦ and_then (strip (codes "=\"") (run_of is_name_byte s1).1) λ s2.
      and_then (strip (codes "\"") (run_of is_not_quote s2).1) λ s3.
        and_then (read_attrs f s3) λ (more, s4).
          some (((run_of is_name_byte s1).0, decode (run_of is_not_quote s2).0) ∷ more, s4)
]

-- A tag up to its content: its name and its attributes.
abbrev pub head_named : ℕ → Bytes × Bytes → Option (Bytes × (Attrs × Bytes))
head_named f (name, s) = and_then (read_attrs f s) λ read. some (name, read)

unfoldable pub read_head : ℕ → Bytes → Option (Bytes × (Attrs × Bytes))
unfolding strip run_of read_attrs is_digit
read_head f s = and_then (strip (codes "<") s) λ s1. head_named f (run_of is_name_byte s1)

-- The closing tag.
abbrev pub closing : Bytes → Bytes
closing name = codes "</" ++ (name ++ codes ">")

-- The content and the closing tag: children, if a bracket begins the content, or a text.
abbrev pub tags_in : Bytes → Attrs → Option (Tags × Bytes) → Option (Tag × Bytes)
tags_in name attrs children =
    and_then children
      λ (tags, s). and_then (strip (closing name) s) λ rest. some (node name tags attrs, rest)

abbrev pub text_in : Bytes → Attrs → Bytes × Bytes → Option (Tag × Bytes)
text_in name attrs (raw, s) =
    and_then (strip (closing name) s) λ rest. some (text name (decode raw) attrs, rest)

abbrev pub content_in : Bytes → Attrs → Bytes → Option (Tags × Bytes) → Bool → Option (Tag × Bytes)
content_in name attrs s children true = tags_in name attrs children
content_in name attrs s children false = text_in name attrs (run_of is_not_open s)

abbrev pub content_of :
    Bytes → Attrs → Bytes → Option (Tags × Bytes) → Option Bytes → Option (Tag × Bytes)
content_of name attrs s children none = content_in name attrs s children (has_prefix s (codes "<"))
content_of name attrs s children (some rest) = some (node name no_tags attrs, rest)

unfoldable mutual
  unfolding strip run_of decode read_head

  pub read_tag : ℕ → Bytes → Option (Tag × Bytes)
  read_tag zero s = none
  read_tag (suc f) s = and_then (read_head f s) λ (name, (attrs, s2)).
      elim (strip (codes "/>") s2) [
        | some s3 ↦ some (node name no_tags attrs, s3)
        | none ↦ and_then (strip (codes ">") s2) λ s3. read_content f name attrs s3
      ]

  pub read_content : ℕ → Bytes → Attrs → Bytes → Option (Tag × Bytes)
  read_content zero name attrs s = none
  read_content (suc f) name attrs s =
      content_of name attrs s (read_tags f s) (strip (closing name) s)

  pub read_tags : ℕ → Bytes → Option (Tags × Bytes)
  read_tags zero s = none
  read_tags (suc f) s = elim (has_prefix s (codes "</")) [
    | true ↦ some (no_tags, s)
    | false ↦
        and_then (read_tag f s)
          λ (t, s1). and_then (read_tags f s1) λ (ts, s2). some (child t ts, s2)
  ]

-- A document: the declaration, the stylesheet if there is one, and the root, with nothing after it.
pub record Document : Type 0 where
  pub declaration : Attrs
  pub stylesheet : Option Attrs
  pub root : Tag

abbrev pub at_end : Attrs → Option Attrs → Option (Tag × Bytes) → Option Document
at_end declaration stylesheet none = none
at_end declaration stylesheet (some (root, [])) =
    some (record { declaration = declaration; stylesheet = stylesheet; root = root })
at_end declaration stylesheet (some (root, c ∷ s)) = none

-- The attributes of an instruction, and what follows it.
abbrev pub read_instruction : ℕ → Bytes → Option (Attrs × Bytes)
read_instruction f s =
    and_then (read_attrs f s) λ (attrs, s1). and_then (strip (codes "?>") s1) λ s2. some (attrs, s2)

abbrev pub read_body : ℕ → Attrs → Bytes → Option Bytes → Option Document
read_body f declaration s none = at_end declaration none (read_tag f s)
read_body f declaration s (some s1) =
    and_then (read_instruction f s1) λ (attrs, s2). at_end declaration (some attrs) (read_tag f s2)

unfoldable pub read_document : ℕ → Bytes → Option Document
unfolding strip read_attrs read_tag
read_document f s = and_then (strip (codes "<?xml") s) λ s1.
    and_then (read_instruction f s1)
      λ (declaration, s2). read_body f declaration s2 (strip (codes "<?xml-stylesheet") s2)

-- A text without the characters that XML does not allow.
unfoldable pub clean_from : ℕ → Bytes → Bytes
unfolding begins_nonchar
clean_from k [] = []
clean_from (suc k) (c ∷ s) = clean_from k s
clean_from zero (c ∷ s) =
    let past = clean_from 2 s in
    let more = clean_from 0 s in
    if begins_nonchar (c ∷ s) then past else if is_dropped c then more else c ∷ more

unfoldable pub clean : Bytes → Bytes
unfolding clean_from
clean s = clean_from 0 s

unfoldable pub view_attrs : Attrs → Attrs
unfolding clean
view_attrs [] = []
view_attrs ((key, value) ∷ attrs) = (key, clean value) ∷ view_attrs attrs

-- A tag without text has no children.
abbrev pub view_text : Bytes → Attrs → Bytes → Tag
view_text name attrs [] = node name no_tags attrs
view_text name attrs (c ∷ s) = text name (c ∷ s) attrs

unfoldable mutual
  unfolding clean view_attrs

  pub view : Tag → Tag
  view (text name value attrs) = view_text name (view_attrs attrs) (clean value)
  view (node name tags attrs) = node name (view_tags tags) (view_attrs attrs)

  pub view_tags : Tags → Tags
  view_tags no_tags = no_tags
  view_tags (child t ts) = child (view t) (view_tags ts)

-- Names that can be read, in attributes and tags. Texts and values are free.
abbrev pub is_name : Bytes → Bool
is_name s = leb 1 (length s) && all_bytes is_name_byte s

unfoldable pub named_attrs : Attrs → Bool
unfolding all_bytes is_digit
named_attrs [] = true
named_attrs ((key, value) ∷ attrs) = is_name key && named_attrs attrs

unfoldable mutual
  unfolding named_attrs all_bytes is_digit

  pub named_tag : Tag → Bool
  named_tag (text name value attrs) = is_name name && named_attrs attrs
  named_tag (node name tags attrs) = (is_name name && named_attrs attrs) && named_tags tags

  pub named_tags : Tags → Bool
  named_tags no_tags = true
  named_tags (child t ts) = named_tag t && named_tags ts
