-- ===== src/Feed/Cache/AsOf.antt =====
-- What was found of a feed under a version, as the store goes on step by step.
use kringkasting.Base.{
  ℕ, ◌+◌, ◌≤◌, ◌≡◌, refl, sym, ap, ◌∙◌, inl, inr, false, Option, none, some, List, ◌∷◌, ◌++◌, arith,
  Bool-cases, Bytes, same, same_iff,
}
use kringkasting.Base.Map.{lookup, mem, mem-append}
use mathlib.Core.Path.{subst}
use kringkasting.Store.{Episode, Series, SeriesRow, Db, rows_of, data_version, bump}
use kringkasting.Store.Read.{read_series, series_of, newest_first}
use kringkasting.Store.History.{Write}
use kringkasting.Store.Steps.{
  moved, commit, select_series, assemble_series, commit-version, commit-SameShown,
}
use kringkasting.Store.Shown.{
  SameShown, SameShown-refl, SameShown-bump, shown_series, data_version-bump,
}

module _ (P : Db → Type 0) (id : Bytes) (version : ℕ) where
  -- As long as the version is that of the store, and no write of the feed is between its commit and
  -- the move of the version, the store has the property.
  pub record IsAsOf (db : Db) (unbumped : List Bytes) : Type 0 where
    pub past : version ≤ data_version id db
    pub holds : data_version id db ≡ version → mem id unbumped ≡ false → P db

  module _ (stable : (a b : Db) → SameShown id a b → P a → P b) where
    pub commit-IsAsOf :
        (db : Db) (unbumped : List Bytes) (w : Write)
        → IsAsOf db unbumped
        → IsAsOf (commit db w) (moved db w ++ unbumped)
    commit-IsAsOf db unbumped w h =
        let same_version = commit-version id db w in
        record {
          past = omega (arith, h.past, same_version);
          holds = λ e settled.
              let apart = mem-append id (moved db w) unbumped in
              stable db (commit db w) (commit-SameShown id db w (ground (arith, settled, apart)))
                (h.holds (sym same_version ∙ e) (ground (arith, settled, apart)));
        }

    pub bump-IsAsOf :
        (db : Db) (before after : List Bytes) (k : Bytes)
        → IsAsOf db (before ++ (k ∷ after))
        → IsAsOf (bump k db) (before ++ after)
    bump-IsAsOf db before after k h = elim (Bool-cases (same k id)) [
      | inl s ↦
          let moved_on : data_version id (bump k db) ≡ data_version id db + 1 =
            data_version-bump id k db ∙ rw s refl in
          record {
            past = omega (arith, h.past, moved_on);
            holds = λ e settled. absurd (omega (arith, h.past, moved_on, e));
          }
      | inr n ↦
          let same_version : data_version id (bump k db) ≡ data_version id db =
            data_version-bump id k db ∙ rw n refl in
          record {
            past = omega (arith, h.past, same_version);
            holds = λ e settled. stable db (bump k db) (SameShown-bump k (SameShown-refl id db)) (
                h.holds (sym same_version ∙ e) (
                  unfold mem in
                  ground (
                    arith,
                    settled,
                    n,
                    mem-append id before after,
                    mem-append id before (k ∷ after),
                    same_iff k id,
                    same_iff id k,
                  )));
          }
    ]

-- The series that a read found under its version.
pub record WasRead (s : Series) (db : Db) (unbumped : List Bytes) : Type 0 where
  pub source : Db
  pub read : read_series s.id source ≡ some s
  pub as_of : IsAsOf (SameShown s.id source) s.id s.version db unbumped

-- The first select of a read under a version.
pub record WasSelected (id : Bytes) (version : ℕ) (row : Option SeriesRow) (db : Db)
    (unbumped : List Bytes) : Type 0 where
  pub source : Db
  pub of_version : data_version id source ≡ version
  pub found : lookup id source.series_table ≡ row
  pub as_of :
      IsAsOf
        (λ d. shown_series row ≡ shown_series (lookup id d.series_table))
        id
        version
        db
        unbumped

-- A version that a read took.
pub record WasTaken (id : Bytes) (version : ℕ) (db : Db) (unbumped : List Bytes) : Type 0 where
  pub source : Db
  pub of_version : data_version id source ≡ version
  pub as_of : IsAsOf (λ d. Unit) id version db unbumped

-- The id and the version that a read puts into the series.
pub series_of-fields :
    (id : Bytes) (o : Option SeriesRow) (es : List Episode) (version : ℕ) (s : Series)
    → series_of id o es version ≡ some s
    → (s.id ≡ id) × (s.version ≡ version)
series_of-fields id none es version s h = ground (arith, h)
series_of-fields id (some row) es version s h =
    (sym (ap (id_or id) h), sym (ap (version_or version) h))
  where
    id_or : Bytes → Option Series → Bytes
    id_or d none = d
    id_or d (some s) = s.id

    version_or : ℕ → Option Series → ℕ
    version_or d none = d
    version_or d (some s) = s.version

pub take-WasTaken :
    (id : Bytes) (db : Db) (unbumped : List Bytes) → WasTaken id (data_version id db) db unbumped
take-WasTaken id db unbumped = record {
  source = db;
  of_version = refl;
  as_of = record { past = omega arith; holds = λ e settled. tt };
}

pub select-WasSelected :
    (id : Bytes) (version : ℕ) (db : Db) (unbumped : List Bytes)
    → WasTaken id version db unbumped
    → WasSelected id version (select_series id db) db unbumped
select-WasSelected id version db unbumped t = record {
  source = record t.source { series_table = db.series_table };
  of_version = unfold data_version in t.of_version;
  found = refl;
  as_of = record { past = t.as_of.past; holds = λ e settled. refl };
}

pub assemble-WasRead :
    (id : Bytes) (version : ℕ) (row : Option SeriesRow) (db : Db) (unbumped : List Bytes)
    (s : Series)
    → WasSelected id version row db unbumped
    → assemble_series id row db version ≡ some s
    → WasRead s db unbumped
assemble-WasRead id version row db unbumped s t h =
    let (named, numbered) =
      series_of-fields id row (newest_first (rows_of id db.episode_table)) version s h in
    let (source, read, as_of) =
      subst (λ i. Found i s.version) (sym named) (subst (Found id) (sym numbered) found) in
    record { source = source; read = read; as_of = as_of }
  where
    Found : Bytes → ℕ → Type 0
    Found i v =
        (source : Db) × (read_series i source ≡ some s)
        × IsAsOf (SameShown i source) i v db unbumped

    torn : Db
    torn = record t.source { episode_table = db.episode_table }

    episodes : List Episode
    episodes = newest_first (rows_of id db.episode_table)

    of_version : data_version id torn ≡ version
    of_version = unfold data_version in t.of_version

    read_torn : read_series id torn ≡ some s
    read_torn =
        unfold read_series in
        ap (λ o. series_of id o episodes (data_version id torn)) t.found
        ∙ (ap (λ v. series_of id row episodes v) of_version ∙ h)

    found : Found id version
    found = (
      torn,
      read_torn,
      record {
        past = t.as_of.past;
        holds = λ e settled. record {
          series = ap shown_series t.found ∙ t.as_of.holds e settled;
          episodes = λ x. refl;
        };
      },
    )
