-- ===== src/Feed/Xml/RoundTrip.antt =====
-- What the writer writes, the reader reads.
use kringkasting.Base.{
  ℕ, zero, suc, ◌+◌, ◌<◌, ◌≡◌, refl, true, ◌&&◌, some, [], ◌∷◌, ◌++◌, append_assoc, arith, length,
  Bytes, both,
}
use kringkasting.Base.Ascii.{has_prefix}
use kringkasting.Feed.Xml.{Attrs, Tag, Tags, text, node, no_tags, child, write_tag, write_tags}
use kringkasting.Feed.Xml.Reader.{
  read_tag, read_tags, view, view_tags, is_name, named_attrs, named_tag, named_tags,
}
use kringkasting.Feed.Xml.Heads.{read_tag-closed}
use kringkasting.Feed.Xml.Contents.{node-append, tag-begins, read_tag-text, read_tag-children}

-- The fuel that a tag needs.
unfoldable mutual
  pub cost : Tag → ℕ
  cost (text name value attrs) = length attrs + 5
  cost (node name tags attrs) = length attrs + cost_tags tags + 5

  pub cost_tags : Tags → ℕ
  cost_tags no_tags = 1
  cost_tags (child t ts) = cost t + cost_tags ts + 1

abbrev TagReadsBack : Tag → Type 0
TagReadsBack t =
    named_tag t ≡ true
    → (rest : Bytes) (f : ℕ) → cost t < f
    → read_tag f (write_tag t ++ rest) ≡ some (view t, rest)

abbrev ChildrenReadBack : Tags → Type 0
ChildrenReadBack ts =
    named_tags ts ≡ true
    → (rest : Bytes) (f : ℕ) → cost_tags ts < f
    → read_tags f (write_tags ts ++ (60 ∷ (47 ∷ rest))) ≡ some (view_tags ts, 60 ∷ (47 ∷ rest))

text-ReadsBack : (name value : Bytes) (attrs : Attrs) → TagReadsBack (text name value attrs)
unfolding named_tag view cost
text-ReadsBack name value attrs n rest zero h = absurd (omega arith)
text-ReadsBack name value attrs n rest (suc zero) h = absurd (omega arith)
text-ReadsBack name value attrs n rest (suc (suc g)) h =
    let (ok, all_ok) = both (is_name name) (named_attrs attrs) n in
    read_tag-text name value attrs rest g ok all_ok (omega (arith, h))

node-ReadsBack :
    (ts : Tags)
    → ChildrenReadBack ts
    → (name : Bytes) (attrs : Attrs) → TagReadsBack (node name ts attrs)
unfolding named_tag view cost
node-ReadsBack ts ih name attrs n rest zero h = absurd (omega arith)
node-ReadsBack no_tags ih name attrs n rest (suc f) h =
    let (head, more) = both (is_name name && named_attrs attrs) true n in
    let (ok, all_ok) = both (is_name name) (named_attrs attrs) head in
    rw (node-append name no_tags attrs rest)
      (read_tag-closed name attrs rest f ok all_ok (omega (arith, h)))
node-ReadsBack (child t ts) ih name attrs n rest (suc zero) h = absurd (omega arith)
node-ReadsBack (child t ts) ih name attrs n rest (suc (suc g)) h =
    let (head, more) = both (is_name name && named_attrs attrs) (named_tags (child t ts)) n in
    let (ok, all_ok) = both (is_name name) (named_attrs attrs) head in
    read_tag-children name t ts attrs rest g ok all_ok (both (named_tag t) (named_tags ts) more).0
      (omega (arith, h)) (ih more (name ++ (62 ∷ rest)) g (omega (arith, h)))

none-ReadBack : ChildrenReadBack no_tags
unfolding read_tags has_prefix write_tag view
none-ReadBack n rest zero h = absurd (omega arith)
none-ReadBack n rest (suc f) h = refl

child-ReadBack :
    (t : Tag) (ts : Tags) → TagReadsBack t → ChildrenReadBack ts → ChildrenReadBack (child t ts)
unfolding read_tags named_tag view cost write_tag
child-ReadBack t ts ih ihs n rest zero h = absurd (omega arith)
child-ReadBack t ts ih ihs n rest (suc f) h =
    let (now, later) = both (named_tag t) (named_tags ts) n in
    let s : Bytes = 60 ∷ (47 ∷ rest) in
    rw (append_assoc (write_tag t) (write_tags ts) s) (
      rw (tag-begins t (write_tags ts ++ s) [] now, read_tags)
        (rw (ih now (write_tags ts ++ s) f (omega (arith, h)))
          (rw (ihs later rest f (omega (arith, h))) refl)))

tags-ReadBack : (t : Tag) → TagReadsBack t
tags-ReadBack t = elim t as TagReadsBack ChildrenReadBack [
  | text name value attrs ↦ text-ReadsBack name value attrs
  | node name (ts → ih) attrs ↦ node-ReadsBack ts ih name attrs
  | no_tags ↦ none-ReadBack
  | child (t → ih) (ts → ihs) ↦ child-ReadBack t ts ih ihs
]

-- A written tag whose names are names is read back, with enough fuel and whatever follows it, as the
-- same tag with the texts and values cleaned of the characters that XML does not allow.
pub read_tag-write_tag :
    (t : Tag) (rest : Bytes) (f : ℕ)
    → named_tag t ≡ true
    → cost t < f
    → read_tag f (write_tag t ++ rest) ≡ some (view t, rest)
read_tag-write_tag t rest f n h = tags-ReadBack t n rest f h
