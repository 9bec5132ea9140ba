-- ===== src/Feed/Cache/Moves.antt =====
-- Last-Modified of a document that nothing comes between, beside the validators remembered before.
use kringkasting.Base.{
  ℕ, ◌/◌, ◌≤◌, ◌<◌, ◌≡◌, refl, sym, ap, ◌∙◌, ◌≢◌, inl, inr, Option, none, some, arith, ◌==◌,
  Bool-cases, Bytes, same_iff,
}
use kringkasting.Base.Map.{lookup, lookup-insert_self}
use kringkasting.Feed.Cache.{
  Rendered, CacheEntry, Cache, Validator, get, element, to_front, render_end, render_current,
  next_modified, put, remember, superseded,
}
use kringkasting.Feed.Cache.Validators.{
  IsAgreed, get-IsAgreed, put-IsAgreed, put-validators, validator_of,
}
use kringkasting.Feed.Cache.Books.{get-lookup}
use kringkasting.Feed.Cache.Bounds.{IsConsistent, get-IsConsistent}

-- The new Last-Modified is the old one for the same document, else of a later second.
pub next_modified-moves :
    (prev : Validator) (etag : Bytes) (now : ℕ)
    → (etag ≡ prev.etag → next_modified (some prev) etag now ≡ prev.last_modified)
      × (etag ≢ prev.etag → prev.last_modified / 1000 < next_modified (some prev) etag now / 1000)
unfolding next_modified
next_modified-moves prev etag now = (
  (λ e. ground (arith, same_iff prev.etag etag, e)),
  (λ n. ground (arith, same_iff prev.etag etag, n)),
)

pub get-validators : (k : Bytes) (c : Cache) → (get k c).1.validators ≡ c.validators
unfolding get
get-validators k c = go (element k c)
  where
    go : (o : Option CacheEntry) → (to_front k o c).1.validators ≡ c.validators
    go none = refl
    go (some e) = refl

render_current-IsAgreed :
    (e : CacheEntry) (o : Option CacheEntry) (c : Cache)
    → IsConsistent c
    → 1 ≤ e.version
    → IsAgreed c
    → IsAgreed (render_current e (o, c)).1
unfolding render_current
render_current-IsAgreed e none c h n a = put-IsAgreed e c h.indexed n a
render_current-IsAgreed e (some x) c h n a = elim (Bool-cases (superseded e (some x))) [
  | inl s ↦ rw s a
  | inr s ↦ rw s (put-IsAgreed e c h.indexed n a)
]

pub render_end-IsAgreed :
    (e : CacheEntry) (c : Cache) → IsConsistent c → IsAgreed c → IsAgreed (render_end e c).1
unfolding render_end
render_end-IsAgreed e c h a = elim (Bool-cases (e.version == 0)) [
  | inl z ↦ rw z a
  | inr n ↦ rw n (
      render_current-IsAgreed e (get e.key c).0 (get e.key c).1 (get-IsConsistent e.key c h)
        (ground arith) (get-IsAgreed e.key c h a))
]

-- A document after one with the validator `prev`: the same date for the same document, else one of a
-- later second.
abbrev pub Follows : Validator → Rendered → Type 0
Follows prev r =
    (r.etag ≡ prev.etag → r.last_modified ≡ prev.last_modified)
    × (r.etag ≢ prev.etag → prev.last_modified / 1000 < r.last_modified / 1000)

abbrev pub validator : Rendered → Validator
validator r = record { etag = r.etag; last_modified = r.last_modified }

-- It follows, and where it is cached its validator is remembered.
abbrev pub Moves : Bytes → ℕ → Validator → Rendered × Cache → Type 0
Moves key version prev (r, c) =
    Follows prev r × (1 ≤ version → lookup key c.validators ≡ some (validator r))

pub agreed-Moves :
    (k : Bytes) (n : ℕ) (e : CacheEntry) (prev : Validator) (c : Cache)
    → IsAgreed c
    → lookup k c.lru ≡ some e
    → lookup k c.validators ≡ some prev
    → Moves k n prev (e.rendered, c)
agreed-Moves k n e prev c a h v =
    let p = a k e prev h v in
    (
      ((λ q. p.1), λ q. absurd (q p.0)),
      λ b. v ∙ sym (λ i. some (record { etag = p.0 i; last_modified = p.1 i })),
    )

put-Moves :
    (n : ℕ) (e : CacheEntry) (prev : Validator) (c : Cache)
    → Follows prev e.rendered
    → Moves e.key n prev (e.rendered, put e c)
put-Moves n e prev c f = (
  f,
  λ b.
      ap (lookup e.key) (put-validators e c)
      ∙ (unfold remember in lookup-insert_self e.key (validator_of e) _),
)

module _ (e : CacheEntry) (prev : Validator) (f : Follows prev e.rendered) where
  render_current-Moves :
      (o : Option CacheEntry) (c : Cache)
      → IsConsistent c
      → IsAgreed c
      → lookup e.key c.lru ≡ o
      → lookup e.key c.validators ≡ some prev
      → Moves e.key e.version prev (render_current e (o, c))
  unfolding render_current
  render_current-Moves none c h a l v = put-Moves e.version e prev c f
  render_current-Moves (some x) c h a l v = elim (Bool-cases (superseded e (some x))) [
    | inl s ↦ rw s (agreed-Moves e.key e.version x prev c a l v)
    | inr s ↦ rw s (put-Moves e.version e prev c f)
  ]

  pub render_end-Moves :
      (c : Cache)
      → IsConsistent c
      → IsAgreed c
      → lookup e.key c.validators ≡ some prev
      → Moves e.key e.version prev (render_end e c)
  unfolding render_end
  render_end-Moves c h a v = elim (Bool-cases (e.version == 0)) [
    | inl z ↦ rw z (f, λ b. absurd (ground arith))
    | inr n ↦ rw n (
        render_current-Moves (get e.key c).0 (get e.key c).1 (get-IsConsistent e.key c h)
          (get-IsAgreed e.key c h a) (get-lookup e.key c h.indexed)
          (ap (lookup e.key) (get-validators e.key c) ∙ v))
  ]
