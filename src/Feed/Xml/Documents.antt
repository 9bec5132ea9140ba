-- ===== src/Feed/Xml/Documents.antt =====
-- A serialized document is read back.
use mathlib.Core.Path.{subst}
use kringkasting.Base.{
  ℕ, ◌+◌, ◌<◌, ◌≡◌, refl, sym, ap, ◌∙◌, Bool, true, false, ◌&&◌, Option, none, some, [], ◌∷◌, ◌++◌,
  append_assoc, append-nil, arith, ◌==◌, length, Bytes, codes, both,
}
use kringkasting.Base.Ascii.{has_prefix, is_digit, all_bytes, passing}
use kringkasting.Feed.Xml.{
  Attrs, Tag, text, node, write_attrs, write_content, write_tag, write_tags, write_stylesheet,
  serialize, text_content, node_content,
}
use kringkasting.Feed.Xml.Reader.{
  strip, and_then, is_name_byte, read_tag, at_end, read_instruction, read_body, read_document,
  view_attrs, view, is_name, named_attrs, named_tag, named_tags,
}
use kringkasting.Feed.Xml.Heads.{strip-append, is_name-passes, read_attrs-write_attrs}
use kringkasting.Feed.Xml.RoundTrip.{cost, read_tag-write_tag}

abbrev pub view_stylesheet : Option Attrs → Option Attrs
view_stylesheet none = none
view_stylesheet (some attrs) = some (view_attrs attrs)

abbrev pub named_stylesheet : Option Attrs → Bool
named_stylesheet none = true
named_stylesheet (some attrs) = named_attrs attrs

abbrev pub cost_stylesheet : Option Attrs → ℕ
cost_stylesheet none = 0
cost_stylesheet (some attrs) = length attrs

read_instruction-write :
    (attrs : Attrs) (rest : Bytes) (f : ℕ)
    → named_attrs attrs ≡ true
    → length attrs < f
    → read_instruction f (write_attrs attrs ++ (codes "?>" ++ rest)) ≡ some (view_attrs attrs, rest)
unfolding strip has_prefix
read_instruction-write attrs rest f n le =
    rw (read_attrs-write_attrs attrs 63 (62 ∷ rest) f n refl le) refl

no_question : (c : ℕ) → is_name_byte c ≡ true → (c == 63) ≡ false
unfolding is_digit
no_question c h = ground (arith, h)

name-no_stylesheet :
    (name s : Bytes)
    → is_name name ≡ true
    → strip (codes "<?xml-stylesheet") (60 ∷ (name ++ s)) ≡ none
unfolding strip has_prefix is_digit all_bytes
name-no_stylesheet [] s n = cc
name-no_stylesheet (c ∷ name) s n =
    rw (no_question c (passing is_name_byte c name (is_name-passes (c ∷ name) n)).0) refl

tag-no_stylesheet :
    (t : Tag) (s : Bytes)
    → named_tag t ≡ true
    → strip (codes "<?xml-stylesheet") (write_tag t ++ s) ≡ none
unfolding write_tag named_tag
tag-no_stylesheet (text name value attrs) s n =
    subst (λ x. strip (codes "<?xml-stylesheet") (60 ∷ x) ≡ none)
      (sym (append_assoc name (write_attrs attrs ++ write_content name (text_content value)) s))
      (name-no_stylesheet name ((write_attrs attrs ++ write_content name (text_content value)) ++ s)
        (both (is_name name) (named_attrs attrs) n).0)
tag-no_stylesheet (node name tags attrs) s n =
    subst (λ x. strip (codes "<?xml-stylesheet") (60 ∷ x) ≡ none)
      (sym (
        append_assoc name
          (write_attrs attrs ++ write_content name (node_content tags (write_tags tags))) s))
      (name-no_stylesheet name
        ((write_attrs attrs ++ write_content name (node_content tags (write_tags tags))) ++ s)
        (both (is_name name) (named_attrs attrs)
          (both (is_name name && named_attrs attrs) (named_tags tags) n).0).0)

whole-read :
    (root : Tag) (f : ℕ)
    → named_tag root ≡ true
    → cost root < f
    → read_tag f (write_tag root) ≡ some (view root, [])
whole-read root f n le =
    subst (λ s. read_tag f s ≡ some (view root, [])) (append-nil (write_tag root))
      (read_tag-write_tag root [] f n le)

whole-no_stylesheet :
    (root : Tag) → named_tag root ≡ true → strip (codes "<?xml-stylesheet") (write_tag root) ≡ none
whole-no_stylesheet root n =
    subst (λ s. strip (codes "<?xml-stylesheet") s ≡ none) (append-nil (write_tag root))
      (tag-no_stylesheet root [] n)

read_body-write :
    (declaration : Attrs) (stylesheet : Option Attrs) (root : Tag) (f : ℕ)
    → named_stylesheet stylesheet ≡ true
    → named_tag root ≡ true
    → cost_stylesheet stylesheet + cost root < f
    → let s = write_stylesheet stylesheet (write_tag root) in
      read_body f declaration s (strip (codes "<?xml-stylesheet") s)
      ≡ some (record {
        declaration = declaration;
        stylesheet = view_stylesheet stylesheet;
        root = view root;
      })
read_body-write declaration none root f ns nr le =
    ap (read_body f declaration (write_tag root)) (whole-no_stylesheet root nr)
    ∙ ap (at_end declaration none) (whole-read root f nr (omega (arith, le)))
read_body-write declaration (some attrs) root f ns nr le =
    let rest : Bytes = write_attrs attrs ++ (codes "?>" ++ write_tag root) in
    ap (read_body f declaration (codes "<?xml-stylesheet" ++ rest))
      (strip-append (codes "<?xml-stylesheet") rest)
    ∙ ap (λ o. and_then o λ (read, s). at_end declaration (some read) (read_tag f s))
        (read_instruction-write attrs (write_tag root) f ns (omega (arith, le)))
    ∙ ap (at_end declaration (some (view_attrs attrs))) (whole-read root f nr (omega (arith, le)))

-- A serialized document whose names are names is read back, with enough fuel, as its declaration,
-- its stylesheet and its root, their texts and values cleaned of the characters that XML does not
-- allow: nothing in a text or a value can end it or add a tag.
pub read_document-serialize :
    (declaration : Attrs) (stylesheet : Option Attrs) (root : Tag) (f : ℕ)
    → named_attrs declaration ≡ true
    → named_stylesheet stylesheet ≡ true
    → named_tag root ≡ true
    → length declaration + cost_stylesheet stylesheet + cost root < f
    → read_document f (serialize declaration stylesheet root)
      ≡ some (record {
        declaration = view_attrs declaration;
        stylesheet = view_stylesheet stylesheet;
        root = view root;
      })
unfolding read_document serialize strip has_prefix
read_document-serialize declaration stylesheet root f nd ns nr le =
    ap (λ o. and_then o λ (read, s). read_body f read s (strip (codes "<?xml-stylesheet") s))
      (read_instruction-write declaration (write_stylesheet stylesheet (write_tag root)) f nd
        (omega (arith, le)))
    ∙ read_body-write (view_attrs declaration) stylesheet root f ns nr (omega (arith, le))
