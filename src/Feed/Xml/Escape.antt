-- ===== src/Feed/Xml/Escape.antt =====
-- What is escaped is read back as the clean text, and holds no bracket and no quote.
use mathlib.Core.Path.{subst}
use kringkasting.Base.{
  ℕ, zero, suc, ◌≡◌, refl, sym, ap, ◌∙◌, inl, inr, Bool, true, false, [], ◌∷◌, ◌++◌, arith, ◌==◌,
  if◌then◌else◌, ==_iff, Bool-cases, Bytes,
}
use kringkasting.Base.Ascii.{has_prefix, all_bytes, all_bytes-append}
use kringkasting.Feed.Xml.{is_dropped, begins_nonchar, piece, escape_from, escape_text, escape_attr}
use kringkasting.Feed.Xml.Reader.{
  entity, decode_from, decode, clean_from, clean, is_not_quote, is_not_open,
}

-- What is read of the replacement of a byte, and of what follows it.
DecodesPiece : Bool → Bytes → ℕ → Type 0
DecodesPiece in_attr s c =
    decode_from 0 (piece in_attr c ++ s)
    ≡ (if is_dropped c then decode_from 0 s else c ∷ decode_from 0 s)

at_byte :
    (in_attr : Bool) (s : Bytes) (c k : ℕ)
    → (c == k) ≡ true
    → DecodesPiece in_attr s k
    → DecodesPiece in_attr s c
at_byte in_attr s c k h = subst (DecodesPiece in_attr s) (sym ((==_iff c k).0 h))

decode-plain :
    (c : ℕ) (s : Bytes)
    → (c == 38) ≡ false
    → decode_from 0 ((if is_dropped c then [] else c ∷ []) ++ s)
      ≡ (if is_dropped c then decode_from 0 s else c ∷ decode_from 0 s)
unfolding decode_from
decode-plain c s h = elim (Bool-cases (is_dropped c)) [
  | inl y ↦ rw y refl
  | inr n ↦ rw n (rw h refl)
]

decode-quotes :
    (in_attr : Bool) (c : ℕ) (s : Bytes)
    → (c == 38) ≡ false
    → (c == 60) ≡ false
    → (c == 62) ≡ false
    → DecodesPiece in_attr s c
unfolding decode_from entity has_prefix piece DecodesPiece
decode-quotes false c s amp lt gt = rw amp (rw lt (rw gt (decode-plain c s amp)))
decode-quotes true c s amp lt gt = elim (Bool-cases (c == 34)) [
  | inl y ↦ at_byte true s c 34 y refl
  | inr quot ↦ elim (Bool-cases (c == 39)) [
    | inl y ↦ at_byte true s c 39 y refl
    | inr apos ↦ rw amp (rw lt (rw gt (rw quot (rw apos (decode-plain c s amp)))))
  ]
]

decode-piece : (in_attr : Bool) (c : ℕ) (s : Bytes) → DecodesPiece in_attr s c
unfolding decode_from entity has_prefix piece DecodesPiece
decode-piece in_attr c s = elim (Bool-cases (c == 38)) [
  | inl y ↦ at_byte in_attr s c 38 y refl
  | inr amp ↦ elim (Bool-cases (c == 60)) [
    | inl y ↦ at_byte in_attr s c 60 y refl
    | inr lt ↦ elim (Bool-cases (c == 62)) [
      | inl y ↦ at_byte in_attr s c 62 y refl
      | inr gt ↦ decode-quotes in_attr c s amp lt gt
    ]
  ]
]

decode-escape_from :
    (in_attr : Bool) (k : ℕ) (s : Bytes) → decode_from 0 (escape_from in_attr k s) ≡ clean_from k s
unfolding escape_from clean_from decode_from DecodesPiece
decode-escape_from in_attr k [] = refl
decode-escape_from in_attr (suc k) (c ∷ s) = decode-escape_from in_attr k s
decode-escape_from in_attr zero (c ∷ s) =
    let past = decode-escape_from in_attr 2 s in
    let more = decode-escape_from in_attr 0 s in
    elim (Bool-cases (begins_nonchar (c ∷ s))) [
      | inl y ↦ rw y past
      | inr n ↦ rw n (
          decode-piece in_attr c (escape_from in_attr 0 s)
          ∙ ap (λ d. if is_dropped c then d else c ∷ d) more)
    ]

pub decode-escape_text : (s : Bytes) → decode (escape_text s) ≡ clean s
unfolding decode escape_text clean
decode-escape_text s = decode-escape_from false 0 s

pub decode-escape_attr : (s : Bytes) → decode (escape_attr s) ≡ clean s
unfolding decode escape_attr clean
decode-escape_attr s = decode-escape_from true 0 s

-- The replacements pass a test of bytes that every entity and every other byte passes.
escape_from-passes :
    (p : ℕ → Bool) (in_attr : Bool)
    → ((c : ℕ) → all_bytes p (piece in_attr c) ≡ true)
    → (k : ℕ) (s : Bytes) → all_bytes p (escape_from in_attr k s) ≡ true
unfolding escape_from all_bytes
escape_from-passes p in_attr h k [] = refl
escape_from-passes p in_attr h (suc k) (c ∷ s) = escape_from-passes p in_attr h k s
escape_from-passes p in_attr h zero (c ∷ s) =
    let past = escape_from-passes p in_attr h 2 s in
    let more = escape_from-passes p in_attr h 0 s in
    elim (Bool-cases (begins_nonchar (c ∷ s))) [
      | inl y ↦ rw y past
      | inr n ↦
          rw n (all_bytes-append p (piece in_attr c) (escape_from in_attr 0 s) ∙ rw (h c) more)
    ]

text_piece : (c : ℕ) → all_bytes is_not_open (piece false c) ≡ true
unfolding piece all_bytes
text_piece c = ground arith

attr_piece : (c : ℕ) → all_bytes is_not_quote (piece true c) ≡ true
unfolding piece all_bytes
attr_piece c = ground arith

pub escape_text-closed : (s : Bytes) → all_bytes is_not_open (escape_text s) ≡ true
unfolding escape_text
escape_text-closed s = escape_from-passes is_not_open false text_piece 0 s

pub escape_attr-closed : (s : Bytes) → all_bytes is_not_quote (escape_attr s) ≡ true
unfolding escape_attr
escape_attr-closed s = escape_from-passes is_not_quote true attr_piece 0 s
