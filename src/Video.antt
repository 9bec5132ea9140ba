-- ===== src/Video.antt =====
-- internal/video/worker.go: the search for the videos of episodes, and internal/nrk/video.go: the
-- lookup of one clip. The lengths of clips, which are float64 in Go, are counted in milliseconds and
-- compared exactly; `duration_of` stands for `DurationSeconds`. The checks of a round, of which Go
-- runs two at a time, come one after the other; each has NRK's answer and the clock as arguments.
pub mod Settles
use kringkasting.Base.{
  ℕ, zero, suc, ◌+◌, ◌-◌, ◌*◌, ◌/◌, ◌%◌, ◌^◌, ◌≤◌, ◌<◌, min, max, String, ◌≡◌, refl, sym, ap, ◌∙◌,
  ◌≢◌, ◌↔◌, ◌⊎◌, inl, inr, Bool, true, false, not, ◌&&◌, ◌||◌, Option, none, some, List, [], ◌∷◌,
  ◌++◌, map, append_assoc, append-nil, arith, ltb, leb, ◌==◌, if◌then◌else◌, ltb→lt, lt→ltb, leb→le,
  le→leb, ==_iff, Bool-cases, Option-cases, length, get_elem?, set, take, drop, length-append,
  length-take-le, length-drop, All, All-append, All-left, All-right, Bytes, codes, same, same_iff,
  same_refl, append_cancel_left, differ, All-middle, All-map,
}
use kringkasting.Base.Map.{
  Map, lookup, insert, delete, is_some, lookup-insert, lookup-insert_self, lookup-delete,
  length-insert-le, length-insert_present, length-delete-le, mem, keys, keys_where, mem-keys,
  mem-append, lookup-delete_self, lookup-delete_ne, lookup-insert_ne, Distinct, insert-Distinct,
  passes, mem-keys_where, remove, mem-remove,
}
use kringkasting.Retry
use kringkasting.Nrk.{is_hls, is_transient}
use kringkasting.Store.{Db, EpisodeRow, SeriesRow, CatalogKind}
use kringkasting.Store.Videos.{
  VideoCandidate, videos_due, set_video, set_clip_ids, has_video, same_text,
}

abbrev pub per_round : ℕ
per_round = 20

abbrev pub hour : ℕ
hour = 60 * 60 * 1000

abbrev pub recheck_found : ℕ
recheck_found = 30 * 24 * hour

abbrev pub recheck_missing_recent : ℕ
recheck_missing_recent = 6 * hour

abbrev pub recent_episode : ℕ
recent_episode = 7 * 24 * hour

abbrev pub recheck_missing : ℕ
recheck_missing = 30 * 24 * hour

abbrev pub min_tolerance : ℕ
min_tolerance = 60 * 1000

-- `Matches`: within a minute, or within a twentieth of the audio
unfoldable pub is_match : ℕ → ℕ → Bool
is_match video_ms audio_seconds =
    let audio = audio_seconds * 1000 in
    let tolerance = max min_tolerance (audio_seconds * 50) in
    leb (video_ms - audio) tolerance && leb (audio - video_ms) tolerance

-- `nextCheckWithoutVideo`
unfoldable pub next_check_without_video : ℕ → ℕ → ℕ
next_check_without_video date now =
    if ltb now (date + recent_episode) then now + recheck_missing_recent else now + recheck_missing

-- `clipManifest`
pub record Asset : Type 0 where
  pub url : Bytes
  pub is_encrypted : Bool

pub record Playable : Type 0 where
  pub duration : Bytes
  pub assets : List (Option Asset)

pub record ClipManifest : Type 0 where
  pub source_medium : Bytes
  pub playability : Bytes
  pub playable_part : Option Playable

-- The outcome of a lookup, with the URL and the length of the video.
pub data Lookup : Type 0 where
  found : Bytes → ℕ → Lookup
  not_found unavailable : Lookup

abbrev is_no_url : Bytes → Bool
is_no_url [] = true
is_no_url (c ∷ s) = false

unfoldable pub is_usable : Option Asset → Bool
unfolding is_hls
is_usable none = false
is_usable (some a) = not (is_no_url a.url) && not a.is_encrypted && is_hls a.url

abbrev url_of : Option Asset → Bytes
url_of none = []
url_of (some a) = a.url

abbrev with_length : Bytes → Option ℕ → Lookup
with_length url none = not_found
with_length url (some length) = found url length

-- The first usable asset.
unfoldable pub first_usable : Option ℕ → List (Option Asset) → Lookup
unfolding is_usable
first_usable length [] = not_found
first_usable length (a ∷ assets) =
    let rest = first_usable length assets in
    if is_usable a then with_length (url_of a) length else rest

module _ (duration_of : Bytes → Option ℕ) where
  abbrev playable_video : Option Playable → Lookup
  playable_video none = not_found
  playable_video (some p) = first_usable (duration_of p.duration) p.assets

  abbrev with_manifest : Option ClipManifest → Lookup
  with_manifest none = unavailable
  with_manifest (some m) =
      if not (same m.source_medium (codes "video")) || not (same m.playability (codes "playable"))
      then not_found
      else playable_video m.playable_part

  -- `VideoForClip`, of the status and the body, if it decodes
  unfoldable pub video_for_clip : ℕ → Option ClipManifest → Lookup
  unfolding first_usable
  video_for_clip status body =
      if is_transient status
      then unavailable
      else if (leb 400 status && ltb status 500) && not (status == 408)
      then not_found
      else if not (status == 200)
      then unavailable
      else with_manifest body

-- A check of the clip in any feed, with its URL and its next check; the later of two.
abbrev Known : Type 0
Known = Option Bytes × ℕ

abbrev pub later : Option Known → Option Known → Option Known
later none b = b
later (some a) none = some a
later (some a) (some b) = if ltb a.1 b.1 then some b else some a

abbrev pub has_clip : Bytes → Option Bytes → Bool
has_clip clip none = false
has_clip clip (some c) = same c clip

abbrev pub known_row : Bytes → ℕ → Option Bytes → Option Bytes → Option ℕ → Option Known
known_row clip since row_clip url none = none
known_row clip since row_clip url (some next) =
    if has_clip clip row_clip && ltb since next then some (url, next) else none

unfoldable pub known_rows : Bytes → ℕ → Map EpisodeRow → Option Known
known_rows clip since [] = none
known_rows clip since ((id, row) ∷ rows) =
    later (known_row clip since row.clip_id row.video_url row.video_next_check_at)
      (known_rows clip since rows)

unfoldable pub known_feeds : Bytes → ℕ → Map (Map EpisodeRow) → Option Known
unfolding known_rows
known_feeds clip since [] = none
known_feeds clip since ((id, rows) ∷ feeds) =
    later (known_rows clip since rows) (known_feeds clip since feeds)

-- `KnownVideo`
abbrev pub known_video : Bytes → ℕ → Db → Option Known
known_video clip since db = known_feeds clip since db.episode_table

abbrev pub video_key : Bytes → Bytes
video_key clip = codes "video:" ++ clip

abbrev pub without_video : VideoCandidate → ℕ → Db → Db
without_video c now db =
    let stored = set_video c.series_id c.episode_id none (next_check_without_video c.date now) db in
    record stored { retry = Retry.clear stored.retry (video_key c.clip_id) }

-- What `check` does with the outcome of a lookup.
unfoldable pub with_lookup : VideoCandidate → Lookup → ℕ → Db → Db
unfolding set_video is_match next_check_without_video
with_lookup c unavailable now db = record db {
  retry = Retry.defer db.retry (video_key c.clip_id) 0 now;
}
with_lookup c not_found now db = without_video c now db
with_lookup c (found url length) now db =
    let stored = set_video c.series_id c.episode_id (some url) (now + recheck_found) db in
    if is_match length c.duration_in_seconds
    then record stored { retry = Retry.clear stored.retry (video_key c.clip_id) }
    else without_video c now db

abbrev pub check_known : Option Known → VideoCandidate → Lookup → ℕ → Db → Db
check_known (some (url, next)) c lookup now db = set_video c.series_id c.episode_id url next db
check_known none c lookup now db =
    if not (Retry.can db.retry (video_key c.clip_id) now) then db else with_lookup c lookup now db

-- `check`
unfoldable pub check : VideoCandidate → Lookup → ℕ → Db → Db
unfolding known_feeds with_lookup
check c lookup now db = check_known (known_video c.clip_id now db) c lookup now db

-- The candidates of `checkDue`, each with the outcome of its lookup and the time of its check.
unfoldable pub check_all : (VideoCandidate → Lookup × ℕ) → List VideoCandidate → Db → Db
unfolding check
check_all ask [] db = db
check_all ask (c ∷ cs) db = check_all ask cs (check c (ask c).0 (ask c).1 db)

unfoldable pub check_due : (VideoCandidate → Lookup × ℕ) → Bytes → ℕ → Db → Db
unfolding check_all videos_due
check_due ask feed_id now db = check_all ask (videos_due feed_id per_round now db) db

-- `backfill`, the value of a "video-backfill:" key
pub record Backfill : Type 0 where
  pub cursor : Bytes
  pub is_done : Bool

abbrev pub progress_of : Option Backfill → Backfill
progress_of none = record { cursor = []; is_done = false }
progress_of (some b) = b

abbrev pub backfill_key : Bytes → Bytes
backfill_key feed_id = codes "video-backfill:" ++ feed_id

abbrev is_complete : Option SeriesRow → Bool
is_complete none = false
is_complete (some row) = row.backlog_complete

abbrev kind_of : Option SeriesRow → Option CatalogKind
kind_of none = none
kind_of (some row) = row.catalog_kind

abbrev with_clips :
    Bytes → Option (List (Bytes × Bytes) × Bytes) → ℕ → Db → Map Backfill → Db × Map Backfill
with_clips feed_id none now db backfills =
    (record db { retry = Retry.defer db.retry (backfill_key feed_id) 0 now }, backfills)
with_clips feed_id (some (clips, next)) now db backfills =
    let stored = set_clip_ids feed_id clips db in
    (
      record stored { retry = Retry.clear stored.retry (backfill_key feed_id) },
      insert feed_id (record { cursor = next; is_done = is_no_url next }) backfills,
    )

-- `backfillClipIDs`; `list` is `ListClipIDs` for a feed, a cursor and a catalog
unfoldable pub backfill_clip_ids :
    (Bytes → Bytes → Option CatalogKind → Option (List (Bytes × Bytes) × Bytes))
    → Bytes
    → Bool
    → ℕ
    → Db
    → Map Backfill
    → Db × Map Backfill
unfolding has_video lookup insert set_clip_ids
backfill_clip_ids list feed_id cancelled now db backfills =
    let progress = progress_of (lookup feed_id backfills) in
    let row = lookup feed_id db.series_table in
    if (cancelled || not (has_video feed_id db)) || not (is_complete row)
    then (db, backfills)
    else if progress.is_done || not (Retry.can db.retry (backfill_key feed_id) now)
    then (db, backfills)
    else with_clips feed_id (list feed_id progress.cursor (kind_of row)) now db backfills
