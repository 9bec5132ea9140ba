-- ===== src/Feed/Xml/Heads.antt =====
-- The head of a tag, its name and attributes, is read back.
use kringkasting.Base.{
  ℕ, zero, suc, ◌<◌, ◌≡◌, refl, ap, ◌∙◌, true, false, Option, some, [], ◌∷◌, ◌++◌, append_assoc,
  arith, leb, ◌==◌, length, drop, Bytes, codes, both,
}
use kringkasting.Base.Ascii.{
  has_prefix, has_prefix-append, run_of, run_of-append, is_digit, all_bytes,
}
use kringkasting.Feed.Xml.{Attrs, node, no_tags, escape_attr, write_attrs}
use kringkasting.Feed.Xml.Reader.{
  strip, and_then, is_name_byte, is_not_quote, read_attrs, head_named, read_head, read_tag,
  read_content, view_attrs, is_name, named_attrs,
}
use kringkasting.Feed.Xml.Escape.{decode-escape_attr, escape_attr-closed}

drop-append : (p s : Bytes) → drop (length p) (p ++ s) ≡ s
drop-append [] s = refl
drop-append (c ∷ p) s = drop-append p s

pub strip-append : (p s : Bytes) → strip p (p ++ s) ≡ some s
unfolding strip has_prefix
strip-append p s = rw (has_prefix-append p s) (ap some (drop-append p s))

pub is_name-passes : (s : Bytes) → is_name s ≡ true → all_bytes is_name_byte s ≡ true
is_name-passes s h = (both (leb 1 (length s)) (all_bytes is_name_byte s) h).1

attrs-append :
    (key value : Bytes) (attrs : Attrs) (rest : Bytes)
    → write_attrs ((key, value) ∷ attrs) ++ rest
      ≡ 32 ∷ (key ++ (61 ∷ (34 ∷ (escape_attr value ++ (34 ∷ (write_attrs attrs ++ rest))))))
unfolding write_attrs
attrs-append key value attrs rest =
    ap (λ t. 32 ∷ t)
      (append_assoc key _ rest
        ∙ ap (λ t. key ++ (61 ∷ (34 ∷ t)))
            (append_assoc (escape_attr value) (34 ∷ write_attrs attrs) rest))

pub read_attrs-write_attrs :
    (attrs : Attrs) (c : ℕ) (rest : Bytes) (f : ℕ)
    → named_attrs attrs ≡ true
    → (c == 32) ≡ false
    → length attrs < f
    → read_attrs f (write_attrs attrs ++ (c ∷ rest)) ≡ some (view_attrs attrs, c ∷ rest)
unfolding read_attrs strip has_prefix view_attrs write_attrs named_attrs is_digit
read_attrs-write_attrs attrs c rest zero n h le = absurd (omega arith)
read_attrs-write_attrs [] c rest (suc f) n h le = rw (h, read_attrs) refl
read_attrs-write_attrs ((key, value) ∷ attrs) c rest (suc f) n h le =
    let after : Bytes = write_attrs attrs ++ (c ∷ rest) in
    let (name, names) = both (is_name key) (named_attrs attrs) n in
    rw (attrs-append key value attrs (c ∷ rest)) (
      rw
        (run_of-append is_name_byte key 61 (34 ∷ (escape_attr value ++ (34 ∷ after)))
          (is_name-passes key name) refl)
        (rw
          (run_of-append is_not_quote (escape_attr value) 34 after (escape_attr-closed value) refl)
          (rw (read_attrs-write_attrs attrs c rest f names h (omega (arith, le)))
            (rw (decode-escape_attr value) refl))))

run_of-name :
    (name : Bytes) (attrs : Attrs) (c : ℕ) (rest : Bytes)
    → is_name name ≡ true
    → is_name_byte c ≡ false
    → run_of is_name_byte (name ++ (write_attrs attrs ++ (c ∷ rest)))
      ≡ (name, write_attrs attrs ++ (c ∷ rest))
unfolding write_attrs is_digit
run_of-name name [] c rest n nb = run_of-append is_name_byte name c rest (is_name-passes name n) nb
run_of-name name ((key, value) ∷ attrs) c rest n nb =
    run_of-append is_name_byte name 32 _ (is_name-passes name n) refl

read_head-tag :
    (name : Bytes) (attrs : Attrs) (c : ℕ) (rest : Bytes) (f : ℕ)
    → is_name name ≡ true
    → named_attrs attrs ≡ true
    → length attrs < f
    → (c == 32) ≡ false
    → is_name_byte c ≡ false
    → read_head f (60 ∷ (name ++ (write_attrs attrs ++ (c ∷ rest))))
      ≡ some (name, (view_attrs attrs, c ∷ rest))
unfolding read_head strip has_prefix
read_head-tag name attrs c rest f n a le sp nb =
    ap (head_named f) (run_of-name name attrs c rest n nb)
    ∙ ap (λ (o : Option (Attrs × Bytes)). and_then o λ read. some (name, read))
        (read_attrs-write_attrs attrs c rest f a sp le)

-- A tag without content.
pub read_tag-closed :
    (name : Bytes) (attrs : Attrs) (rest : Bytes) (f : ℕ)
    → is_name name ≡ true
    → named_attrs attrs ≡ true
    → length attrs < f
    → read_tag (suc f) (60 ∷ (name ++ (write_attrs attrs ++ (codes "/>" ++ rest))))
      ≡ some (node name no_tags (view_attrs attrs), rest)
unfolding read_tag strip has_prefix is_digit
read_tag-closed name attrs rest f n a le =
    rw (read_head-tag name attrs 47 (62 ∷ rest) f n a le refl refl) refl

pub read_tag-open :
    (name : Bytes) (attrs : Attrs) (rest : Bytes) (f : ℕ)
    → is_name name ≡ true
    → named_attrs attrs ≡ true
    → length attrs < f
    → read_tag (suc f) (60 ∷ (name ++ (write_attrs attrs ++ (codes ">" ++ rest))))
      ≡ read_content f name (view_attrs attrs) rest
unfolding read_tag strip has_prefix is_digit
read_tag-open name attrs rest f n a le =
    rw (read_head-tag name attrs 62 rest f n a le refl refl) refl
