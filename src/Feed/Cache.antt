-- ===== src/Feed/Cache.antt =====
-- internal/feed/cache.go: the rendered feeds. `Render` holds the mutex twice, before and after it
-- assembles the document, and is two functions here, so that others may come in between.
-- `assemble` stands for `AssembleFeed` and `sha1_hex` for the digest of crypto/sha1 in
-- hexadecimal. Times are Unix milliseconds.
pub mod Elements
pub mod Books
pub mod Bounds
pub mod Requests
pub mod Races
pub mod AsOf
pub mod Survives
pub mod Kept
pub mod Fresh
pub mod Served
pub mod Validators
pub mod Moves
pub mod LastModified
use kringkasting.Base.{
  ℕ, zero, suc, ◌+◌, ◌-◌, ◌*◌, ◌/◌, Bool, false, not, ◌&&◌, ◌||◌, Option, none, some, List, [], ◌∷◌,
  ◌++◌, map, ltb, leb, ◌==◌, if◌then◌else◌, length, set, Bytes, same,
}
use kringkasting.Base.Map.{Map, lookup, insert, delete, is_some, mem, keys, remove}
use kringkasting.Store.{Series}

abbrev pub max_cache_entries : ℕ
max_cache_entries = 500

-- 64 MiB
abbrev pub max_cache_bytes : ℕ
max_cache_bytes = 67108864

abbrev pub max_validators : ℕ
max_validators = 10000

pub record Rendered : Type 0 where
  pub xml : Bytes
  pub etag : Bytes
  pub last_modified : ℕ

pub record CacheEntry : Type 0 where
  pub rendered : Rendered
  pub key : Bytes
  pub origin : Bytes
  pub version : ℕ

pub record Validator : Type 0 where
  pub etag : Bytes
  pub last_modified : ℕ

-- `entries` is the set of the keys of the Go map; the list element that a key leads to is the one
-- that stands under it in `lru`, where the most recently used comes first.
pub record Cache : Type 0 where
  pub entries : List Bytes
  pub lru : Map CacheEntry
  pub bytes : ℕ
  pub validators : Map Validator
  pub max_entries : ℕ
  pub max_bytes : ℕ

-- `NewCache`; the tests set other limits
abbrev pub new_cache : Cache
new_cache = record {
  entries = [];
  lru = [];
  bytes = 0;
  validators = [];
  max_entries = max_cache_entries;
  max_bytes = max_cache_bytes;
}

-- MoveToFront, of the element found
abbrev pub to_front : Bytes → Option CacheEntry → Cache → Option CacheEntry × Cache
to_front key none c = (none, c)
to_front key (some e) c = (some e, record c { lru = (key, e) ∷ delete key c.lru })

abbrev pub element : Bytes → Cache → Option CacheEntry
element key c = if mem key c.entries then lookup key c.lru else none

unfoldable pub get : Bytes → Cache → Option CacheEntry × Cache
unfolding mem lookup delete
get key c = to_front key (element key c) c

abbrev pub peeked : Bytes → ℕ → Option CacheEntry → Option Rendered
peeked origin version none = none
peeked origin version (some e) =
    if same e.origin origin && (e.version == version) then some e.rendered else none

unfoldable pub peek : Bytes → Bytes → ℕ → Cache → Option Rendered × Cache
unfolding get same
peek feed_id origin version c = let (found, c') = get feed_id c in (peeked origin version found, c')

-- The Last-Modified of a new document, from what is remembered of the last one.
unfoldable pub next_modified : Option Validator → Bytes → ℕ → ℕ
next_modified none etag now = now
next_modified (some previous) etag now =
    let last = (previous.last_modified / 1000) * 1000 in
    if same previous.etag etag
    then previous.last_modified
    else if ltb last ((now / 1000) * 1000)
    then now
    else last + 1000

-- What the first section of `Render` leads to: an answer, or a document to be put in.
pub data Begun : Type 0 where
  served : Rendered → Begun
  assembled : CacheEntry → Begun

module _ (assemble : Series → Bytes → Bytes) (sha1_hex : Bytes → Bytes) where
  -- `ETagFor`; 34 is the quotation mark
  abbrev pub etag_for : Bytes → Bytes
  etag_for content = 34 ∷ (sha1_hex content ++ (34 ∷ []))

  abbrev pub render_entry : Series → Bytes → Option Validator → ℕ → CacheEntry
  render_entry s origin previous now = record {
    rendered = record {
      xml = assemble s origin;
      etag = etag_for (assemble s origin);
      last_modified = next_modified previous (etag_for (assemble s origin)) now;
    };
    key = s.id;
    origin = origin;
    version = s.version;
  }

  abbrev pub begun : Series → Bytes → ℕ → Option Validator → Option CacheEntry → Begun
  begun s origin now previous none = assembled (render_entry s origin previous now)
  begun s origin now previous (some cached) =
      if same cached.origin origin && leb s.version cached.version
      then served cached.rendered
      else assembled (render_entry s origin previous now)

  -- `Render` up to the second Lock; the clock is read at the end of it.
  unfoldable pub render_begin : Series → Bytes → ℕ → Cache → Begun × Cache
  unfolding get next_modified
  render_begin s origin now c =
      let (cached, c') = get s.id c in (begun s origin now (lookup s.id c'.validators) cached, c')

unfoldable pub remember : Bytes → CacheEntry → Cache → Cache
unfolding is_some insert lookup
remember key entry c =
    let kept =
      if not (is_some (lookup key c.validators)) && leb max_validators (length c.validators)
      then []
      else c.validators in
    record c {
      validators =
          insert key
            (record { etag = entry.rendered.etag; last_modified = entry.rendered.last_modified })
            kept;
    }

-- The element of the key gets the entry, and comes first; or a new one does.
abbrev pub place_at : Bytes → CacheEntry → Option CacheEntry → Cache → Cache
place_at key entry none c = record c { entries = key ∷ c.entries; lru = (key, entry) ∷ c.lru }
place_at key entry (some old) c = record c {
  bytes = c.bytes - length old.rendered.xml;
  lru = (key, entry) ∷ delete key c.lru;
}

unfoldable pub place : Bytes → CacheEntry → Cache → Cache
unfolding mem lookup delete
place key entry c =
    let placed = place_at key entry (element key c) c in
    record placed { bytes = placed.bytes + length entry.rendered.xml }

unfoldable pub over : Cache → Bool
over c = ltb 1 (length c.lru) && (ltb c.max_entries (length c.lru) || ltb c.max_bytes c.bytes)

-- The last element, and the list without it.
unfoldable pub back : Map CacheEntry → Option CacheEntry
back [] = none
back ((k, e) ∷ []) = some e
back ((k, e) ∷ (p ∷ m)) = back (p ∷ m)

unfoldable pub drop_back : Map CacheEntry → Map CacheEntry
drop_back [] = []
drop_back ((k, e) ∷ []) = []
drop_back ((k, e) ∷ (p ∷ m)) = (k, e) ∷ drop_back (p ∷ m)

abbrev pub evict_entry : Option CacheEntry → Cache → Cache
evict_entry none c = c
evict_entry (some evicted) c = record c {
  lru = drop_back c.lru;
  entries = remove evicted.key c.entries;
  bytes = c.bytes - length evicted.rendered.xml;
}

-- The loop; each round removes an element, so their number is fuel enough.
unfoldable pub evict : ℕ → Cache → Cache
unfolding over back drop_back remove
evict zero c = c
evict (suc n) c = let rest = evict n (evict_entry (back c.lru) c) in if over c then rest else c

abbrev pub put : CacheEntry → Cache → Cache
put entry c =
    let c' = place entry.key entry (remember entry.key entry c) in evict (length c'.lru) c'

abbrev pub superseded : CacheEntry → Option CacheEntry → Bool
superseded entry none = false
superseded entry (some current) =
    same current.origin entry.origin && ltb entry.version current.version

-- `Render` from the second Lock.
unfoldable pub render_current : CacheEntry → Option CacheEntry × Cache → Rendered × Cache
unfolding remember place evict same
render_current entry (none, c) = (entry.rendered, put entry c)
render_current entry (some current, c) =
    if superseded entry (some current) then (current.rendered, c) else (entry.rendered, put entry c)

unfoldable pub render_end : CacheEntry → Cache → Rendered × Cache
unfolding get render_current
render_end entry c =
    if entry.version == 0 then (entry.rendered, c) else render_current entry (get entry.key c)

-- The two sections of `Render` with nothing in between.
abbrev pub render_rest : Begun × Cache → Rendered × Cache
render_rest (served r, c) = (r, c)
render_rest (assembled e, c) = render_end e c

module _ (assemble : Series → Bytes → Bytes) (sha1_hex : Bytes → Bytes) where
  unfoldable pub render : Series → Bytes → ℕ → Cache → Rendered × Cache
  unfolding render_begin render_end
  render s origin now c = render_rest (render_begin assemble sha1_hex s origin now c)
