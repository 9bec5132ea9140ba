-- ===== src/Feed/Xml/Contents.antt =====
-- The content of a tag is read back: a text, or children that can be read.
use mathlib.Core.Path.{subst}
use kringkasting.Base.{
  ℕ, suc, ◌<◌, ◌≡◌, refl, ap, ◌∙◌, inl, inr, true, false, ◌&&◌, Option, none, some, [], ◌∷◌, ◌++◌,
  append_assoc, arith, ◌==◌, Bool-cases, length, Bytes, codes, both,
}
use kringkasting.Base.Ascii.{has_prefix, run_of-append, is_digit, all_bytes, passing}
use kringkasting.Feed.Xml.{
  Attrs, Tag, Tags, text, node, child, escape_text, write_attrs, write_content, text_content,
  node_content, write_tag, write_tags,
}
use kringkasting.Feed.Xml.Reader.{
  strip, and_then, tags_in, text_in, content_in, content_of, is_name_byte, is_not_open, decode_from,
  decode, closing, read_tag, read_content, read_tags, clean, view_attrs, view_text, view_tags,
  is_name, named_attrs, named_tag, named_tags,
}
use kringkasting.Feed.Xml.Escape.{decode-escape_text, escape_text-closed}
use kringkasting.Feed.Xml.Heads.{strip-append, is_name-passes, read_tag-closed, read_tag-open}

-- The closing tag, and what follows it.
abbrev closed : Bytes → Bytes → Bytes
closed name rest = 60 ∷ (47 ∷ (name ++ (62 ∷ rest)))

strip-closing : (name rest : Bytes) → strip (closing name) (closed name rest) ≡ some rest
strip-closing name rest =
    subst (λ s. strip (closing name) (60 ∷ (47 ∷ s)) ≡ some rest) (append_assoc name (62 ∷ []) rest)
      (strip-append (closing name) rest)

tag-append :
    (name : Bytes) (attrs : Attrs) (content rest : Bytes)
    → (60 ∷ (name ++ (write_attrs attrs ++ content))) ++ rest
      ≡ 60 ∷ (name ++ (write_attrs attrs ++ (content ++ rest)))
tag-append name attrs content rest =
    ap (λ s. 60 ∷ s)
      (append_assoc name (write_attrs attrs ++ content) rest
        ∙ ap (λ s. name ++ s) (append_assoc (write_attrs attrs) content rest))

content-append :
    (name inner rest : Bytes)
    → write_content name (some inner) ++ rest ≡ 62 ∷ (inner ++ closed name rest)
content-append name inner rest =
    ap (λ s. 62 ∷ s)
      (append_assoc inner (codes "</" ++ (name ++ codes ">")) rest
        ∙ ap (λ s. inner ++ (60 ∷ (47 ∷ s))) (append_assoc name (codes ">") rest))

-- A name does not begin with a slash.
name_no_slash : (c : ℕ) → is_name_byte c ≡ true → (c == 47) ≡ false
unfolding is_digit
name_no_slash c h = ground (arith, h)

name-begins :
    (name s p : Bytes) → is_name name ≡ true → has_prefix (60 ∷ (name ++ s)) (60 ∷ (47 ∷ p)) ≡ false
unfolding has_prefix is_digit all_bytes
name-begins [] s p n = cc
name-begins (c ∷ name) s p n =
    rw (name_no_slash c (passing is_name_byte c name (is_name-passes (c ∷ name) n)).0) refl

view_text-decode :
    (name : Bytes) (attrs : Attrs) (c : ℕ) (w : Bytes)
    → text name (decode (c ∷ w)) attrs ≡ view_text name attrs (decode (c ∷ w))
unfolding decode decode_from
view_text-decode name attrs c w = elim (Bool-cases (c == 38)) [
  | inl y ↦ rw y refl
  | inr n ↦ rw n refl
]

strip-other : (name s : Bytes) (c : ℕ) → (c == 60) ≡ false → strip (closing name) (c ∷ s) ≡ none
unfolding strip has_prefix
strip-other name s c h = rw h refl

bracket-other : (c : ℕ) (s : Bytes) → (c == 60) ≡ false → has_prefix (c ∷ s) (codes "<") ≡ false
unfolding has_prefix
bracket-other c s h = rw h refl

read_content-chars :
    (name : Bytes) (attrs : Attrs) (w rest : Bytes) (f : ℕ)
    → all_bytes is_not_open w ≡ true
    → read_content (suc f) name attrs (w ++ closed name rest)
      ≡ some (view_text name attrs (decode w), rest)
unfolding read_content has_prefix decode
read_content-chars name attrs [] rest f h =
    ap (content_of name attrs (closed name rest) (read_tags f (closed name rest)))
      (strip-closing name rest)
read_content-chars name attrs (c ∷ w) rest f h =
    let s : Bytes = c ∷ (w ++ closed name rest) in
    let no_open : (c == 60) ≡ false = ground (arith, (passing is_not_open c w h).0) in
    let tags : Option (Tags × Bytes) = read_tags f s in
    ap (content_of name attrs s tags) (strip-other name (w ++ closed name rest) c no_open)
    ∙ ap (content_in name attrs s tags) (bracket-other c (w ++ closed name rest) no_open)
    ∙ ap (text_in name attrs)
        (run_of-append is_not_open (c ∷ w) 60 (47 ∷ (name ++ (62 ∷ rest))) h refl)
    ∙ ap (λ o. and_then o λ r. some (text name (decode (c ∷ w)) attrs, r)) (strip-closing name rest)
    ∙ ap (λ t. some (t, rest)) (view_text-decode name attrs c w)

-- What a tag is written as, with what follows it.
text-append :
    (name value : Bytes) (attrs : Attrs) (rest : Bytes)
    → write_tag (text name value attrs) ++ rest
      ≡ 60 ∷ (name ++ (write_attrs attrs ++ (write_content name (text_content value) ++ rest)))
unfolding write_tag
text-append name value attrs rest =
    tag-append name attrs (write_content name (text_content value)) rest

pub node-append :
    (name : Bytes) (tags : Tags) (attrs : Attrs) (rest : Bytes)
    → write_tag (node name tags attrs) ++ rest
      ≡ 60
        ∷ (name
            ++ (write_attrs attrs
                ++ (write_content name (node_content tags (write_tags tags)) ++ rest)))
unfolding write_tag
node-append name tags attrs rest =
    tag-append name attrs (write_content name (node_content tags (write_tags tags))) rest

-- The text of a tag begins with a bracket that is not of a closing tag.
pub tag-begins :
    (t : Tag) (s p : Bytes)
    → named_tag t ≡ true
    → has_prefix (write_tag t ++ s) (60 ∷ (47 ∷ p)) ≡ false
unfolding named_tag
tag-begins (text name value attrs) s p n =
    rw (text-append name value attrs s)
      (name-begins name _ p (both (is_name name) (named_attrs attrs) n).0)
tag-begins (node name tags attrs) s p n = rw (node-append name tags attrs s) (
    name-begins name _ p
      (both (is_name name) (named_attrs attrs)
        (both (is_name name && named_attrs attrs) (named_tags tags) n).0).0)

tag-opens : (t : Tag) (s : Bytes) → has_prefix (write_tag t ++ s) (codes "<") ≡ true
unfolding has_prefix write_tag
tag-opens (text name value attrs) s = refl
tag-opens (node name tags attrs) s = refl

strip-tag :
    (t : Tag) (name s : Bytes) → named_tag t ≡ true → strip (closing name) (write_tag t ++ s) ≡ none
unfolding strip
strip-tag t name s n = rw (tag-begins t s (name ++ codes ">") n) refl

pub read_tag-text :
    (name value : Bytes) (attrs : Attrs) (rest : Bytes) (f : ℕ)
    → is_name name ≡ true
    → named_attrs attrs ≡ true
    → length attrs < suc f
    → read_tag (suc (suc f)) (write_tag (text name value attrs) ++ rest)
      ≡ some (view_text name (view_attrs attrs) (clean value), rest)
unfolding clean
read_tag-text name [] attrs rest f n a le =
    rw (text-append name [] attrs rest) (read_tag-closed name attrs rest (suc f) n a le)
read_tag-text name (c ∷ value) attrs rest f n a le = rw (text-append name (c ∷ value) attrs rest) (
    rw (content-append name (escape_text (c ∷ value)) rest) (
      read_tag-open name attrs (escape_text (c ∷ value) ++ closed name rest) (suc f) n a le
      ∙ read_content-chars name (view_attrs attrs) (escape_text (c ∷ value)) rest f
          (escape_text-closed (c ∷ value))
      ∙ ap (λ v. some (view_text name (view_attrs attrs) v, rest))
          (decode-escape_text (c ∷ value))))

no_close :
    (t : Tag) (ts : Tags) (name s : Bytes)
    → named_tag t ≡ true
    → strip (closing name) (write_tags (child t ts) ++ s) ≡ none
unfolding write_tag
no_close t ts name s n =
    rw (append_assoc (write_tag t) (write_tags ts) s) (strip-tag t name (write_tags ts ++ s) n)

opens :
    (t : Tag) (ts : Tags) (s : Bytes) → has_prefix (write_tags (child t ts) ++ s) (codes "<") ≡ true
unfolding write_tag
opens t ts s = rw (append_assoc (write_tag t) (write_tags ts) s) (tag-opens t (write_tags ts ++ s))

-- A tag with children, when the children can be read.
pub read_tag-children :
    (name : Bytes) (t : Tag) (ts : Tags) (attrs : Attrs) (rest : Bytes) (f : ℕ)
    → is_name name ≡ true
    → named_attrs attrs ≡ true
    → named_tag t ≡ true
    → length attrs < suc f
    → read_tags f (write_tags (child t ts) ++ closed name rest)
      ≡ some (view_tags (child t ts), closed name rest)
    → read_tag (suc (suc f)) (write_tag (node name (child t ts) attrs) ++ rest)
      ≡ some (node name (view_tags (child t ts)) (view_attrs attrs), rest)
unfolding read_content
read_tag-children name t ts attrs rest f n a nt le ih =
    let s : Bytes = write_tags (child t ts) ++ closed name rest in
    rw (node-append name (child t ts) attrs rest) (
      rw (content-append name (write_tags (child t ts)) rest) (
        read_tag-open name attrs s (suc f) n a le
        ∙ ap (content_of name (view_attrs attrs) s (read_tags f s))
            (no_close t ts name (closed name rest) nt)
        ∙ ap (content_in name (view_attrs attrs) s (read_tags f s)) (opens t ts (closed name rest))
        ∙ ap (tags_in name (view_attrs attrs)) ih
        ∙ ap (λ o. and_then o λ r. some (node name (view_tags (child t ts)) (view_attrs attrs), r))
            (strip-closing name rest)))
