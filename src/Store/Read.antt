-- ===== src/Store/Read.antt =====
-- queries.go: the reads, as if nothing came in between; Steps has the steps of ReadSeries. Rows of
-- equal date come in an order that SQLite does not promise; the sort here is a stable one.
pub mod Order
use kringkasting.Base.{
  ℕ, max, Bool, not, Option, none, some, List, [], ◌∷◌, ltb, if◌then◌else◌, Bytes,
}
use kringkasting.Base.Map.{Map, lookup, keys}
use kringkasting.Store.{
  Episode, EpisodeRow, Series, SeriesRow, Db, rows_of, data_version, CatalogKind,
}

-- ORDER BY date DESC
unfoldable pub insert_by_date : Episode → List Episode → List Episode
insert_by_date e [] = e ∷ []
insert_by_date e (f ∷ fs) =
    let rest = insert_by_date e fs in if ltb e.date f.date then f ∷ rest else e ∷ f ∷ fs

unfoldable pub newest_first : Map EpisodeRow → List Episode
unfolding insert_by_date
newest_first [] = []
newest_first ((id, row) ∷ rows) =
    insert_by_date (record row.episode { id = id }) (newest_first rows)

abbrev pub series_of : Bytes → Option SeriesRow → List Episode → ℕ → Option Series
series_of id none episodes version = none
series_of id (some row) episodes version = some (record {
  id = id;
  title = row.title;
  subtitle = row.subtitle;
  link = row.link;
  image_url = row.image_url;
  last_fetched_at = row.last_fetched_at;
  backlog_complete = row.backlog_complete;
  backlog_cursor = row.backlog_cursor;
  catalog_kind = row.catalog_kind;
  is_umbrella = row.is_umbrella;
  metadata_refreshed_at = row.metadata_refreshed_at;
  episodes = episodes;
  version = version;
})

-- The version is that of before the read.
unfoldable pub read_series : Bytes → Db → Option Series
unfolding newest_first data_version
read_series id db =
    series_of id (lookup id db.series_table) (newest_first (rows_of id db.episode_table))
      (data_version id db)

-- SELECT MAX(date)
unfoldable pub newest_date : Map EpisodeRow → Option ℕ
newest_date [] = none
newest_date ((id, row) ∷ rows) = elim (newest_date rows) [
  | none ↦ some row.date
  | some d ↦ some (max row.date d)
]

pub record SeriesMeta : Type 0 where
  pub id : Bytes
  pub last_fetched_at : ℕ
  pub backlog_complete : Bool
  pub newest_episode_at : Option ℕ

unfoldable pub read_series_meta : Bytes → Db → Option SeriesMeta
unfolding newest_date
read_series_meta id db = elim (lookup id db.series_table) [
  | none ↦ none
  | some row ↦ some (record {
    id = id;
    last_fetched_at = row.last_fetched_at;
    backlog_complete = row.backlog_complete;
    newest_episode_at = newest_date (rows_of id db.episode_table);
  })
]

abbrev kind_of_row : Option SeriesRow → Option CatalogKind
kind_of_row none = none
kind_of_row (some row) = row.catalog_kind

unfoldable pub read_catalog_kind : Bytes → Db → Option CatalogKind
read_catalog_kind id db = kind_of_row (lookup id db.series_table)

unfoldable pub read_episode_ids : Bytes → Db → List Bytes
unfolding keys
read_episode_ids id db = keys (rows_of id db.episode_table)
