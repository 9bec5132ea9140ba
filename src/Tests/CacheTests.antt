-- ===== src/Tests/CacheTests.antt =====
-- internal/feed/cache.go: a feed is read, rendered and polled.
use kringkasting.Base.{
  ℕ, ◌/◌, ◌≤◌, ◌<◌, ◌≡◌, refl, ◌≢◌, false, none, some, List, [], ◌∷◌, ◌++◌, arith, Bytes, codes,
  same, differ,
}
use kringkasting.Base.Map.{lookup, mem}
use kringkasting.Store.{CatalogKind, Series, Db, data_version}
use kringkasting.Store.Read.{read_series}
use kringkasting.Store.Shown.{SameShown}
use kringkasting.Feed.Cache.{
  CacheEntry, Validator, new_cache, peek, render, render_begin, render_end, assembled, render_entry,
}
use kringkasting.Feed.Cache.Bounds.{IsConsistent}
use kringkasting.Feed.Cache.Requests.{
  World, Reach, start, next, reads, begins, ends, cache-IsConsistent,
}
use kringkasting.Feed.Cache.Races
use kringkasting.Feed.Cache.Races.{versioned, selected}
use kringkasting.Store.Steps.{commit, moved}
use kringkasting.Store.History.{touch_write}
use kringkasting.Store.Write.{touch_last_fetched}
use kringkasting.Feed.Cache.Fresh.{peek-fresh}
use kringkasting.Feed.Cache.Served.{peek-render_end}
use kringkasting.Feed.Cache.LastModified.{
  Visit, poll, rendering, visit, visits, last_modified_moves,
}
use kringkasting.Tests.StoreTests.{feed, small, series_row, episode_a, episode_b}

abbrev origin : Bytes
origin = codes "https://o"

abbrev title_only : Series → Bytes → Bytes
title_only s o = s.title ++ o

abbrev digest : Bytes → Bytes
digest xml = xml

abbrev stored : Series
stored = record {
  id = feed;
  title = codes "T";
  subtitle = none;
  link = codes "l";
  image_url = [];
  last_fetched_at = 7;
  backlog_complete = false;
  backlog_cursor = none;
  catalog_kind = some CatalogKind.podcast;
  is_umbrella = false;
  metadata_refreshed_at = some 7;
  episodes = episode_b ∷ episode_a ∷ [];
  version = 1;
}

abbrev read_world : World
read_world = record { db = small; held = stored ∷ []; pending = []; cache = new_cache }

abbrev document : CacheEntry
document = render_entry title_only digest stored origin none 5000

abbrev begun_world : World
begun_world = record read_world { pending = document ∷ [] }

abbrev rendered_world : World
rendered_world = record begun_world { pending = []; cache = (render_end document new_cache).1 }

reach_read : Reach title_only digest small read_world
unfolding read_series lookup same
reach_read = next start (reads _ feed)

reach_begun : Reach title_only digest small begun_world
unfolding render_begin
reach_begun = next reach_read (begins read_world [] [] stored origin 5000 refl)

reach_rendered : Reach title_only digest small rendered_world
reach_rendered = next reach_begun (ends begun_world [] [] document refl)

cache-IsConsistent_example : IsConsistent rendered_world.cache
cache-IsConsistent_example =
    cache-IsConsistent title_only digest small rendered_world reach_rendered

answers_poll :
    (peek feed origin (data_version feed small) rendered_world.cache).0 ≡ some document.rendered
unfolding peek data_version render_end
answers_poll = refl

-- The same with the steps of the store: the feed is touched between the two selects of the read.
abbrev touched : Db
touched = commit small (touch_write feed 9)

abbrev torn_world : Races.World
torn_world = record (Races.at_start touched) { held = stored ∷ [] }

abbrev polled_world : Races.World
polled_world = record torn_world { cache = (render_end document new_cache).1 }

reach_torn : Races.Reach title_only digest small torn_world
unfolding read_series data_version lookup same moved commit touch_last_fetched
reach_torn =
    let w = Races.at_start small in
    let taken = record w { readings = versioned feed 1 ∷ [] } in
    let chosen = record w { readings = selected feed 1 (some series_row) ∷ [] } in
    let between = record chosen { db = touched } in
    Races.next
      (Races.next
        (Races.next (Races.next Races.start (Races.takes_version w feed))
          (Races.selects_series taken [] [] feed 1 refl))
        (Races.commits chosen (touch_write feed 9)))
      (Races.selects_episodes between [] [] feed 1 (some series_row) refl)

reach_polled : Races.Reach title_only digest small polled_world
unfolding render_begin
reach_polled =
    Races.next (Races.next reach_torn (Races.begins torn_world [] [] stored origin 5000 refl))
      (Races.ends (record torn_world { pending = document ∷ [] }) [] [] document refl)

answers_torn :
    (peek feed origin (data_version feed touched) polled_world.cache).0 ≡ some document.rendered
unfolding peek data_version render_end commit
answers_torn = refl

peek-fresh_example :
    (s : Series) × (a : Db) × (read_series feed a ≡ some s)
    × (document.rendered.xml ≡ title_only s origin)
    × SameShown feed a touched
unfolding mem
peek-fresh_example =
    peek-fresh title_only digest small polled_world feed origin document.rendered reach_polled refl
      answers_torn

peek-render_end_example :
    (v : ℕ) × (1 ≤ v)
    × ((peek feed origin v (render_end document new_cache).1).0
        ≡ some (render_end document new_cache).0)
peek-render_end_example =
    peek-render_end title_only digest small begun_world document reach_begun (omega arith)

abbrev renamed : Series
renamed = record stored { title = codes "U"; version = 2 }

abbrev first : List Visit
first = rendering stored origin 5000 ∷ poll feed origin 1 ∷ []

abbrev first_validator : Validator
first_validator = record { etag = document.rendered.etag; last_modified = 5000 }

first_known :
    (lookup feed (visits title_only digest first new_cache).validators) ≡ some first_validator
unfolding visits visit render peek lookup
first_known = refl

-- A document that changed within the second of the last one has the next second.
renamed_later :
    (render title_only digest renamed origin 5500
      (visits title_only digest first new_cache)).0.last_modified
    ≡ 6000
unfolding visits visit render peek lookup
renamed_later = refl

last_modified_moves_example :
    ((render title_only digest renamed origin 5500
          (visits title_only digest first new_cache)).0.etag
        ≡ first_validator.etag
      → (render title_only digest renamed origin 5500
          (visits title_only digest first new_cache)).0.last_modified
        ≡ 5000)
    × ((render title_only digest renamed origin 5500
            (visits title_only digest first new_cache)).0.etag
          ≢ first_validator.etag
        → 5000 / 1000
          < (render title_only digest renamed origin 5500
              (visits title_only digest first new_cache)).0.last_modified
            / 1000)
    × (1 ≤ renamed.version
        → lookup feed
            (render title_only digest renamed origin 5500
              (visits title_only digest first new_cache)).1.validators
          ≡ some (record {
            etag =
                (render title_only digest renamed origin 5500
                  (visits title_only digest first new_cache)).0.etag;
            last_modified =
                (render title_only digest renamed origin 5500
                  (visits title_only digest first new_cache)).0.last_modified;
          }))
last_modified_moves_example =
    last_modified_moves title_only digest first renamed origin 5500 first_validator first_known

-- Two documents that are assembled at the same time can get dates of the same second: neither sees
-- the validators of the other.
abbrev renamed_document : CacheEntry
renamed_document = render_entry title_only digest renamed origin none 5500

both_begun :
    ((render_begin title_only digest stored origin 5000 new_cache).0 ≡ assembled document)
    × ((render_begin title_only digest renamed origin 5500 new_cache).0
        ≡ assembled renamed_document)
    × (document.rendered.etag ≢ renamed_document.rendered.etag)
    × (document.rendered.last_modified / 1000 ≡ renamed_document.rendered.last_modified / 1000)
unfolding render_begin same
both_begun = (refl, refl, differ document.rendered.etag renamed_document.rendered.etag refl, refl)
