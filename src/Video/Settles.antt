-- ===== src/Video/Settles.antt =====
-- What a check leaves to check.
use mathlib.Core.Path.{subst}
use kringkasting.Base.{
  ℕ, ◌+◌, ◌<◌, ◌≡◌, refl, ◌≢◌, inl, inr, Bool, true, false, ◌&&◌, Option, none, some, [], ◌∷◌,
  arith, ltb, leb, ltb→lt, Bool-cases, length, Bytes, both,
}
use kringkasting.Base.Map.{Map, lookup, insert, lookup-insert_self}
use kringkasting.Retry
use kringkasting.Retry.Bounds.{can-defer}
use kringkasting.Store.{Db, EpisodeRow, rows_of, bump}
use kringkasting.Store.Videos.{
  VideoCandidate, set_video, set_video_row, checked, same_text, is_due, due_at,
}
use kringkasting.Video.{
  Lookup, found, not_found, unavailable, is_match, next_check_without_video, recheck_found, later,
  has_clip, known_row, known_rows, known_feeds, known_video, video_key, without_video, with_lookup,
  check_known, check,
}

abbrev episode_row : Bytes → Bytes → Db → Option EpisodeRow
episode_row series_id episode_id db = lookup episode_id (rows_of series_id db.episode_table)

-- The row of the candidate is not due, if it has the candidate's clip.
abbrev pub Settled : VideoCandidate → ℕ → Db → Type 0
Settled c now db =
    (row : EpisodeRow)
    → lookup c.episode_id (rows_of c.series_id db.episode_table) ≡ some row
    → row.clip_id ≡ some c.clip_id
    → is_due db now row.clip_id row.video_next_check_at ≡ false

-- A row that was found in the table has the next check that was written to it.
abbrev NextIs : ℕ → Option EpisodeRow → Type 0
NextIs next none = Unit
NextIs next (some row) = row.video_next_check_at ≡ some next

set_video_row-NextIs :
    (o : Option EpisodeRow) (s e : Bytes) (url : Option Bytes) (next : ℕ) (db : Db)
    → episode_row s e db ≡ o
    → NextIs next (episode_row s e (set_video_row o s e url next db))
unfolding bump
set_video_row-NextIs none s e url next db h = rw h tt
set_video_row-NextIs (some row) s e url next db h =
    let table =
      insert s (insert e (checked url next row) (rows_of s db.episode_table)) db.episode_table in
    let there : lookup e (rows_of s table) ≡ some (checked url next row) =
      rw
        (lookup-insert_self s (insert e (checked url next row) (rows_of s db.episode_table))
          db.episode_table)
        (lookup-insert_self e (checked url next row) (rows_of s db.episode_table)) in
    elim (Bool-cases (same_text row.video_url url)) [
      | inl y ↦ rw y (rw there refl)
      | inr n ↦ rw n (rw there refl)
    ]

set_video-NextIs :
    (s e : Bytes) (url : Option Bytes) (next : ℕ) (db : Db)
    → NextIs next (episode_row s e (set_video s e url next db))
unfolding set_video
set_video-NextIs s e url next db = set_video_row-NextIs (episode_row s e db) s e url next db refl

-- A row with a next check after now is not due, whatever the deadlines are.
NextIs-Settled :
    (c : VideoCandidate) (now next : ℕ) (db : Db)
    → now < next
    → NextIs next (episode_row c.series_id c.episode_id db)
    → Settled c now db
NextIs-Settled c now next db l n row there clip =
    let check_at = subst (NextIs next) there n in
    let past : leb next now ≡ false = ground (arith, l) in rw clip (rw check_at (rw past refl))

and_false : (b : Bool) → (b && false) ≡ false
and_false true = refl
and_false false = refl

deadline-Settled :
    (c : VideoCandidate) (now : ℕ) (db : Db)
    → Retry.can db.retry (video_key c.clip_id) now ≡ false
    → Settled c now db
deadline-Settled c now db d row there clip =
    rw clip (rw d (and_false (due_at now row.video_next_check_at)))

-- What is known of the clip is checked after now.
abbrev IsLater : ℕ → Option (Option Bytes × ℕ) → Type 0
IsLater since none = Unit
IsLater since (some k) = since < k.1

later-IsLater :
    (since : ℕ) (a b : Option (Option Bytes × ℕ))
    → IsLater since a
    → IsLater since b
    → IsLater since (later a b)
later-IsLater since none b ha hb = hb
later-IsLater since (some a) none ha hb = ha
later-IsLater since (some a) (some b) ha hb = elim (Bool-cases (ltb a.1 b.1)) [
  | inl y ↦ rw y hb
  | inr n ↦ rw n ha
]

known_row-IsLater :
    (clip : Bytes) (since : ℕ) (row_clip url : Option Bytes) (next : Option ℕ)
    → IsLater since (known_row clip since row_clip url next)
known_row-IsLater clip since row_clip url none = tt
known_row-IsLater clip since row_clip url (some next) =
    elim (Bool-cases (has_clip clip row_clip && ltb since next)) [
      | inl y ↦ rw y (ltb→lt since next (both (has_clip clip row_clip) (ltb since next) y).1)
      | inr n ↦ rw n tt
    ]

known_rows-IsLater :
    (clip : Bytes) (since : ℕ) (rows : Map EpisodeRow) → IsLater since (known_rows clip since rows)
unfolding known_rows
known_rows-IsLater clip since [] = tt
known_rows-IsLater clip since ((id, row) ∷ rows) =
    later-IsLater since _ _
      (known_row-IsLater clip since row.clip_id row.video_url row.video_next_check_at)
      (known_rows-IsLater clip since rows)

known_feeds-IsLater :
    (clip : Bytes) (since : ℕ) (feeds : Map (Map EpisodeRow))
    → IsLater since (known_feeds clip since feeds)
unfolding known_feeds
known_feeds-IsLater clip since [] = tt
known_feeds-IsLater clip since ((id, rows) ∷ feeds) =
    later-IsLater since _ _ (known_rows-IsLater clip since rows)
      (known_feeds-IsLater clip since feeds)

set_video-Settled :
    (c : VideoCandidate) (now next : ℕ) (url : Option Bytes) (db : Db)
    → now < next
    → Settled c now (set_video c.series_id c.episode_id url next db)
set_video-Settled c now next url db l =
    NextIs-Settled c now next (set_video c.series_id c.episode_id url next db) l
      (set_video-NextIs c.series_id c.episode_id url next db)

next_check-later : (date now : ℕ) → now < next_check_without_video date now
unfolding next_check_without_video
next_check-later date now = ground arith

without_video-Settled :
    (c : VideoCandidate) (now : ℕ) (db : Db) → Settled c now (without_video c now db)
without_video-Settled c now db =
    NextIs-Settled c now (next_check_without_video c.date now) (without_video c now db)
      (next_check-later c.date now)
      (set_video-NextIs c.series_id c.episode_id none (next_check_without_video c.date now) db)

not_nothing : (clip : Bytes) → [] ≢ video_key clip
not_nothing clip h = cc

with_lookup-Settled :
    (c : VideoCandidate) (l : Lookup) (now : ℕ) (db : Db) → Settled c now (with_lookup c l now db)
unfolding with_lookup
with_lookup-Settled c unavailable now db =
    deadline-Settled c now (with_lookup c unavailable now db) (
      (can-defer db.retry (video_key c.clip_id) [] 0 now now (not_nothing c.clip_id)).0
        (omega arith))
with_lookup-Settled c not_found now db = without_video-Settled c now db
with_lookup-Settled c (found url length) now db =
    elim (Bool-cases (is_match length c.duration_in_seconds)) [
      | inl y ↦ rw y (
          let stored : Db =
            set_video c.series_id c.episode_id (some url) (now + recheck_found) db in
          NextIs-Settled c now (now + recheck_found)
            (record stored { retry = Retry.clear stored.retry (video_key c.clip_id) }) (omega arith)
            (set_video-NextIs c.series_id c.episode_id (some url) (now + recheck_found) db))
      | inr n ↦ rw n (without_video-Settled c now db)
    ]

check_known-Settled :
    (o : Option (Option Bytes × ℕ)) (c : VideoCandidate) (l : Lookup) (now : ℕ) (db : Db)
    → IsLater now o
    → Settled c now (check_known o c l now db)
check_known-Settled (some (url, next)) c l now db h = set_video-Settled c now next url db h
check_known-Settled none c l now db h =
    elim (Bool-cases (Retry.can db.retry (video_key c.clip_id) now)) [
      | inl y ↦ rw y (with_lookup-Settled c l now db)
      | inr n ↦ rw n (deadline-Settled c now db n)
    ]

-- After the check of a candidate, whatever NRK answered, the row of its episode, if it has the clip
-- that was checked, is not due at the time of the check: neither its next check nor the deadline of
-- its clip lets the next round pick it again.
pub check-is_due :
    (c : VideoCandidate) (l : Lookup) (now : ℕ) (db : Db) (row : EpisodeRow)
    → lookup c.episode_id (rows_of c.series_id (check c l now db).episode_table) ≡ some row
    → row.clip_id ≡ some c.clip_id
    → is_due (check c l now db) now row.clip_id row.video_next_check_at ≡ false
unfolding check
check-is_due c l now db row there clip =
    check_known-Settled (known_video c.clip_id now db) c l now db
      (known_feeds-IsLater c.clip_id now db.episode_table) row there clip
