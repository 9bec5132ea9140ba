-- ===== src/Store/Delete/Scope.antt =====
-- What deleting a series removes, and what it leaves.
use kringkasting.Base.{
  ◌+◌, ◌≡◌, refl, ap, ◌≢◌, Bool, true, ◌||◌, none, [], ◌∷◌, ◌++◌, arith, if◌then◌else◌, Bytes,
  codes, same, same_iff,
}
use kringkasting.Base.Map.{
  lookup-delete_self, lookup-delete_ne, Map, lookup, delete, lookup-insert_self, lookup-delete,
}
use kringkasting.Base.Ascii.{has_prefix}
use kringkasting.Store.{Db, data_version}
use kringkasting.Store.Delete.{
  in_range, trim_suffix, delete_range, delete_prefix, delete_rows, delete_series_by_id,
}

trim_suffix-append : (p : Bytes) → trim_suffix 58 (p ++ 58 ∷ []) ≡ p
unfolding trim_suffix
trim_suffix-append [] = refl
trim_suffix-append (c ∷ []) = refl
trim_suffix-append (c ∷ d ∷ p) = ap (◌∷◌ c) (trim_suffix-append (d ∷ p))

-- The range from "p:" to "p;" holds exactly the keys that begin with "p:".
in_range-has_prefix :
    (p k : Bytes) → in_range (p ++ 58 ∷ []) (p ++ 59 ∷ []) k ≡ has_prefix k (p ++ 58 ∷ [])
unfolding in_range has_prefix
in_range-has_prefix [] [] = refl
in_range-has_prefix [] (c ∷ []) = ground arith
in_range-has_prefix [] (c ∷ d ∷ k) = ground arith
in_range-has_prefix (b ∷ p) [] = refl
in_range-has_prefix (b ∷ p) (c ∷ k) = ground (arith, in_range-has_prefix p k)

lookup-delete_range {ℓ} :
    {V : Type ℓ} (low high k : Bytes) (m : Map V)
    → lookup k (delete_range low high m) ≡ (if in_range low high k then none else lookup k m)
unfolding lookup delete_range
lookup-delete_range low high k [] = ground arith
lookup-delete_range low high k ((j, v) ∷ m) =
    ground (arith, same_iff j k, lookup-delete_range low high k m)

lookup-delete_prefix {ℓ} :
    {V : Type ℓ} (p k : Bytes) (m : Map V)
    → lookup k (delete_prefix (p ++ 58 ∷ []) m)
      ≡ (if has_prefix k (p ++ 58 ∷ []) then none else lookup k m)
unfolding delete_prefix
lookup-delete_prefix p k m = rw (trim_suffix-append, lookup-delete_range, in_range-has_prefix)

-- The keys of the "retry:" family that a delete of the series removes.
abbrev pub is_retry_key : Bytes → Bytes → Bool
is_retry_key id k =
    same (codes "retry:refresh:" ++ id) k
    || same (codes "retry:backlog:" ++ id) k
    || has_prefix k (codes "retry:chapters:" ++ (id ++ codes ":"))

module _ (id other k : Bytes) (db : Db) where
  retry-delete_rows :
      lookup k (delete_rows id db).retry ≡ (if is_retry_key id k then none else lookup k db.retry)
  unfolding delete_rows
  retry-delete_rows = ground (
    arith,
    lookup-delete_prefix (codes "retry:chapters:" ++ id) k
        (delete (codes "retry:backlog:" ++ id) (delete (codes "retry:refresh:" ++ id) db.retry)),
    lookup-delete (codes "retry:backlog:" ++ id) k (delete (codes "retry:refresh:" ++ id) db.retry),
    lookup-delete (codes "retry:refresh:" ++ id) k db.retry,
  )

  -- A committed delete leaves no row of the series in any of its tables, and every row of any other
  -- series; of the durable state it removes exactly the refresh progress of the series, the two
  -- retry deadlines of the feed, and the chapters of its episodes with their deadlines, which are
  -- the keys that begin with "chapters:" or "retry:chapters:", the id and a colon; and it moves the
  -- version of the series.
  pub delete_series_scope :
      other ≢ id
      → let db' = delete_series_by_id true id db in
        (lookup id db'.series_table ≡ none)
        × (lookup id db'.episode_table ≡ none)
        × (lookup id db'.failed_table ≡ none)
        × (lookup id db'.activity_table ≡ none)
        × (lookup id db'.client_table ≡ none)
        × (lookup other db'.series_table ≡ lookup other db.series_table)
        × (lookup other db'.episode_table ≡ lookup other db.episode_table)
        × (lookup other db'.failed_table ≡ lookup other db.failed_table)
        × (lookup other db'.activity_table ≡ lookup other db.activity_table)
        × (lookup other db'.client_table ≡ lookup other db.client_table)
        × (lookup k db'.retry ≡ (if is_retry_key id k then none else lookup k db.retry))
        × (lookup k db'.progress
            ≡ (if same (codes "refresh-progress:" ++ id) k then none else lookup k db.progress))
        × (lookup k db'.chapters ≡ (
            if has_prefix k (codes "chapters:" ++ (id ++ codes ":"))
            then none
            else lookup k db.chapters))
        × (data_version id db' ≡ data_version id db + 1)
  unfolding delete_series_by_id data_version
  delete_series_scope h = (
    lookup-delete_self id db.series_table,
    lookup-delete_self id db.episode_table,
    lookup-delete_self id db.failed_table,
    lookup-delete_self id db.activity_table,
    lookup-delete_self id db.client_table,
    lookup-delete_ne id other db.series_table h,
    lookup-delete_ne id other db.episode_table h,
    lookup-delete_ne id other db.failed_table h,
    lookup-delete_ne id other db.activity_table h,
    lookup-delete_ne id other db.client_table h,
    retry-delete_rows,
    lookup-delete (codes "refresh-progress:" ++ id) k db.progress,
    lookup-delete_prefix (codes "chapters:" ++ id) k db.chapters,
    rw lookup-insert_self refl,
  )
