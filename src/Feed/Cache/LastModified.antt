-- ===== src/Feed/Cache/LastModified.antt =====
-- Last-Modified of the documents that are rendered one after the other.
use mathlib.Core.Path.{subst}
use kringkasting.Base.{
  ℕ, ◌/◌, ◌≤◌, ◌<◌, ◌≡◌, sym, ap, ◌∙◌, ◌≢◌, inl, inr, ◌&&◌, Option, none, some, List, [], ◌∷◌, leb,
  Bool-cases, Bytes, same,
}
use kringkasting.Base.Map.{lookup}
use kringkasting.Store.{Series}
use kringkasting.Feed.Cache.{
  CacheEntry, Cache, Validator, new_cache, get, peek, render_begin, render_entry, render_rest,
  render, begun,
}
use kringkasting.Feed.Cache.Validators.{IsAgreed, get-IsAgreed}
use kringkasting.Feed.Cache.Books.{get-lookup}
use kringkasting.Feed.Cache.Bounds.{
  IsConsistent, IsConsistent-new, get-IsConsistent, render_end-IsConsistent,
}
use kringkasting.Feed.Cache.Moves.{
  next_modified-moves, get-validators, render_end-IsAgreed, agreed-Moves, Moves, render_end-Moves,
}

-- What the requests do with the cache when each is done before the next begins.
pub data Visit : Type 0 where
  poll : Bytes → Bytes → ℕ → Visit
  rendering : Series → Bytes → ℕ → Visit

module _ (assemble : Series → Bytes → Bytes) (sha1_hex : Bytes → Bytes) where
  unfoldable pub visit : Visit → Cache → Cache
  unfolding peek render
  visit (poll id origin version) c = (peek id origin version c).1
  visit (rendering s origin now) c = (render assemble sha1_hex s origin now c).1

  unfoldable pub visits : List Visit → Cache → Cache
  visits [] c = c
  visits (v ∷ vs) c = visits vs (visit v c)

  begun-good :
      (s : Series) (origin : Bytes) (now : ℕ) (previous : Option Validator) (o : Option CacheEntry)
      (c : Cache)
      → IsConsistent c × IsAgreed c
      → IsConsistent (render_rest (begun assemble sha1_hex s origin now previous o, c)).1
        × IsAgreed (render_rest (begun assemble sha1_hex s origin now previous o, c)).1
  begun-good s origin now previous none c h =
      let e = render_entry assemble sha1_hex s origin previous now in
      (render_end-IsConsistent e c h.0, render_end-IsAgreed e c h.0 h.1)
  begun-good s origin now previous (some x) c h =
      elim (Bool-cases (same x.origin origin && leb s.version x.version)) [
        | inl y ↦ rw y h
        | inr n ↦
            let e = render_entry assemble sha1_hex s origin previous now in
            rw n (render_end-IsConsistent e c h.0, render_end-IsAgreed e c h.0 h.1)
      ]

  visit-good :
      (v : Visit) (c : Cache)
      → IsConsistent c × IsAgreed c
      → IsConsistent (visit v c) × IsAgreed (visit v c)
  unfolding visit peek render render_begin
  visit-good (poll id origin version) c h = (get-IsConsistent id c h.0, get-IsAgreed id c h.0 h.1)
  visit-good (rendering s origin now) c h =
      begun-good s origin now (lookup s.id (get s.id c).1.validators) (get s.id c).0 (get s.id c).1
        (get-IsConsistent s.id c h.0, get-IsAgreed s.id c h.0 h.1)

  visits-good :
      (vs : List Visit) (c : Cache)
      → IsConsistent c × IsAgreed c
      → IsConsistent (visits vs c) × IsAgreed (visits vs c)
  unfolding visits
  visits-good [] c h = h
  visits-good (v ∷ vs) c h = visits-good vs (visit v c) (visit-good v c h)

  begun-Moves :
      (s : Series) (origin : Bytes) (now : ℕ) (prev : Validator) (o : Option CacheEntry) (c : Cache)
      → IsConsistent c
      → IsAgreed c
      → lookup s.id c.lru ≡ o
      → lookup s.id c.validators ≡ some prev
      → Moves s.id s.version prev
          (render_rest (begun assemble sha1_hex s origin now (some prev) o, c))
  begun-Moves s origin now prev none c h a l v =
      let e = render_entry assemble sha1_hex s origin (some prev) now in
      render_end-Moves e prev (next_modified-moves prev e.rendered.etag now) c h a v
  begun-Moves s origin now prev (some x) c h a l v =
      elim (Bool-cases (same x.origin origin && leb s.version x.version)) [
        | inl y ↦ rw y (agreed-Moves s.id s.version x prev c a l v)
        | inr n ↦
            let e = render_entry assemble sha1_hex s origin (some prev) now in
            rw n (render_end-Moves e prev (next_modified-moves prev e.rendered.etag now) c h a v)
      ]

  render-Moves :
      (s : Series) (origin : Bytes) (now : ℕ) (prev : Validator) (c : Cache)
      → IsConsistent c
      → IsAgreed c
      → lookup s.id c.validators ≡ some prev
      → Moves s.id s.version prev (render assemble sha1_hex s origin now c)
  unfolding render render_begin
  render-Moves s origin now prev c h a v =
      let known : lookup s.id (get s.id c).1.validators ≡ some prev =
        ap (lookup s.id) (get-validators s.id c) ∙ v in
      subst
        (λ o.
          Moves s.id s.version prev
            (render_rest (begun assemble sha1_hex s origin now o (get s.id c).0, (get s.id c).1)))
        (sym known)
        (begun-Moves s origin now prev (get s.id c).0 (get s.id c).1 (get-IsConsistent s.id c h)
          (get-IsAgreed s.id c h a) (get-lookup s.id c h.indexed) known)

  empty-IsAgreed : IsAgreed new_cache
  unfolding lookup
  empty-IsAgreed = λ k e v h w. cc

  -- When requests come one after the other, and a feed is rendered whose last validators are
  -- remembered: the document has the date of the last one exactly if it has its ETag, and one of a
  -- later second if not, whatever the clock says; and unless its version is 0, its validators are
  -- the ones remembered from then on.
  pub last_modified_moves :
      (vs : List Visit) (s : Series) (origin : Bytes) (now : ℕ) (prev : Validator)
      → lookup s.id (visits vs new_cache).validators ≡ some prev
      → ((render assemble sha1_hex s origin now (visits vs new_cache)).0.etag ≡ prev.etag
          → (render assemble sha1_hex s origin now (visits vs new_cache)).0.last_modified
            ≡ prev.last_modified)
        × ((render assemble sha1_hex s origin now (visits vs new_cache)).0.etag ≢ prev.etag
            → prev.last_modified / 1000
              < (render assemble sha1_hex s origin now (visits vs new_cache)).0.last_modified
                / 1000)
        × (1 ≤ s.version
            → lookup s.id (render assemble sha1_hex s origin now (visits vs new_cache)).1.validators
              ≡ some (record {
                etag = (render assemble sha1_hex s origin now (visits vs new_cache)).0.etag;
                last_modified =
                    (render assemble sha1_hex s origin now (visits vs new_cache)).0.last_modified;
              }))
  last_modified_moves vs s origin now prev v =
      let good = visits-good vs new_cache (IsConsistent-new, empty-IsAgreed) in
      let moves = render-Moves s origin now prev (visits vs new_cache) good.0 good.1 v in
      (moves.0.0, moves.0.1, moves.1)
