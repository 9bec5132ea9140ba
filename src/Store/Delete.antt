-- ===== src/Store/Delete.antt =====
-- queries.go: `DeleteSeriesByID`. A key range is compared byte by byte, as SQLite compares keys.
pub mod Scope
use kringkasting.Base.{
  ℕ, ◌<◌, Bool, true, false, not, ◌&&◌, ◌||◌, [], ◌∷◌, ◌++◌, ltb, ◌==◌, if◌then◌else◌, Bytes, codes,
}
use kringkasting.Base.Map.{Map, delete, keys}
use kringkasting.Store.{Db, bump}

-- s < t in the order of bytes
unfoldable pub bytes_lt : Bytes → Bytes → Bool
bytes_lt s [] = false
bytes_lt [] (b ∷ t) = true
bytes_lt (a ∷ s) (b ∷ t) = ltb a b || (a == b && bytes_lt s t)

-- key >= low AND key < high
unfoldable pub in_range : Bytes → Bytes → Bytes → Bool
unfolding bytes_lt
in_range low high key = not (bytes_lt key low) && bytes_lt key high

-- strings.TrimSuffix of one byte
unfoldable pub trim_suffix : ℕ → Bytes → Bytes
trim_suffix b [] = []
trim_suffix b (c ∷ []) = if c == b then [] else c ∷ []
trim_suffix b (c ∷ d ∷ s) = c ∷ trim_suffix b (d ∷ s)

module _ {ℓ} {V : Type ℓ} where
  -- DELETE FROM app_state WHERE key >= low AND key < high
  unfoldable pub delete_range : Bytes → Bytes → Map V → Map V
  unfolding in_range
  delete_range low high [] = []
  delete_range low high ((k, v) ∷ m) =
      let rest = delete_range low high m in if in_range low high k then rest else (k, v) ∷ rest

-- the keys of one prefix that ends in a colon; a semicolon sorts right after it
unfoldable pub delete_prefix {ℓ} : {V : Type ℓ} → Bytes → Map V → Map V
unfolding delete_range trim_suffix
delete_prefix prefix m = delete_range prefix (trim_suffix b':' prefix ++ codes ";") m

unfoldable pub delete_rows : Bytes → Db → Db
unfolding delete_prefix
delete_rows id db = record db {
  episode_table = delete id db.episode_table;
  failed_table = delete id db.failed_table;
  series_table = delete id db.series_table;
  activity_table = delete id db.activity_table;
  client_table = delete id db.client_table;
  progress = delete (codes "refresh-progress:" ++ id) db.progress;
  retry =
      delete_prefix (codes "retry:chapters:" ++ (id ++ codes ":"))
        (delete (codes "retry:backlog:" ++ id) (delete (codes "retry:refresh:" ++ id) db.retry));
  chapters = delete_prefix (codes "chapters:" ++ (id ++ codes ":")) db.chapters;
}

unfoldable pub delete_series_by_id : Bool → Bytes → Db → Db
unfolding delete_rows bump
delete_series_by_id committed id db = if committed then bump id (delete_rows id db) else db
