-- ===== src/Store/Upsert.antt =====
-- What the upserts of `insertEpisodes` keep of the rows that they meet.
use kringkasting.Base.{
  ◌≡◌, refl, ap, ◌∙◌, inl, inr, true, ◌||◌, Option, none, some, List, [], ◌∷◌, arith, Bool-cases,
  Bytes, same, same_iff,
}
use kringkasting.Base.Map.{Map, lookup, insert, is_some, lookup-insert, mem}
use kringkasting.Store.{Episode, EpisodeRow, coalesce}
use kringkasting.Store.Write.{upsert_row, insert_episodes}

-- What the upserts keep of a row: the video columns as they are, and a known size and clip.
pub record Keeps (old new : EpisodeRow) : Type 0 where
  pub video_url : new.video_url ≡ old.video_url
  pub next_check : new.video_next_check_at ≡ old.video_next_check_at
  pub bytes : is_some old.bytes ≡ true → is_some new.bytes ≡ true
  pub clip_id : is_some old.clip_id ≡ true → is_some new.clip_id ≡ true

coalesce-is_some {ℓ} :
    {A : Type ℓ} (a b : Option A) → is_some b ≡ true → is_some (coalesce a b) ≡ true
unfolding is_some
coalesce-is_some none b h = h
coalesce-is_some (some a) b h = refl

Keeps-upsert : (old : EpisodeRow) (e : Episode) → Keeps old (upsert_row (some old) e)
Keeps-upsert old e = record {
  video_url = refl;
  next_check = refl;
  bytes = coalesce-is_some e.bytes old.bytes;
  clip_id = coalesce-is_some e.clip_id old.clip_id;
}

Keeps-trans : {a b c : EpisodeRow} → Keeps a b → Keeps b c → Keeps a c
Keeps-trans p q = record {
  video_url = q.video_url ∙ p.video_url;
  next_check = q.next_check ∙ p.next_check;
  bytes = λ h. q.bytes (p.bytes h);
  clip_id = λ h. q.clip_id (p.clip_id h);
}

Keeps-refl : (a : EpisodeRow) → Keeps a a
Keeps-refl a = record { video_url = refl; next_check = refl; bytes = λ h. h; clip_id = λ h. h }

-- One upsert at any key.
put_one :
    (e : Episode) (id : Bytes) (rows : Map EpisodeRow) (old : EpisodeRow)
    → lookup id rows ≡ some old
    → (new : EpisodeRow) × (lookup id (insert e.id (upsert_row (lookup e.id rows) e) rows)
        ≡ some new)
      × Keeps old new
put_one e id rows old h = elim (Bool-cases (same e.id id)) [
  | inl s ↦
      let q : lookup e.id rows ≡ some old =
        ground (arith, same_iff e.id id, ap (λ k. lookup k rows) {x = e.id} {y = id}) in
      (upsert_row (some old) e, rw (lookup-insert, s, q), Keeps-upsert old e)
  | inr n ↦ (old, rw (lookup-insert, n) h, Keeps-refl old)
]

-- Every episode that was stored is stored after `insertEpisodes`, whatever the list: with its video
-- columns as they were, and with a size and a clip reference if it had them.
pub insert_episodes-Keeps :
    (es : List Episode) (id : Bytes) (rows : Map EpisodeRow) (old : EpisodeRow)
    → lookup id rows ≡ some old
    → (new : EpisodeRow) × (lookup id (insert_episodes es rows) ≡ some new) × Keeps old new
unfolding insert_episodes
insert_episodes-Keeps [] id rows old h = (old, h, Keeps-refl old)
insert_episodes-Keeps (e ∷ es) id rows old h =
    let (mid, found, kept) = put_one e id rows old h in
    let (new, there, still) =
      insert_episodes-Keeps es id (insert e.id (upsert_row (lookup e.id rows) e) rows) mid found in
    (new, there, Keeps-trans kept still)

unfoldable pub ids : List Episode → List Bytes
ids [] = []
ids (e ∷ es) = e.id ∷ ids es

-- The stored episodes after `insertEpisodes` are exactly those stored before and those of the list.
pub insert_episodes-ids :
    (es : List Episode) (id : Bytes) (rows : Map EpisodeRow)
    → is_some (lookup id (insert_episodes es rows)) ≡ (mem id (ids es) || is_some (lookup id rows))
unfolding insert_episodes ids mem is_some
insert_episodes-ids [] id rows = refl
insert_episodes-ids (e ∷ es) id rows = ground (
  arith,
  insert_episodes-ids es id (insert e.id (upsert_row (lookup e.id rows) e) rows),
  lookup-insert e.id id (upsert_row (lookup e.id rows) e) rows,
)
