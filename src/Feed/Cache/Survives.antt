-- ===== src/Feed/Cache/Survives.antt =====
-- What requests hold of the store survives every step of it that facts about versions survive.
use kringkasting.Base.{ℕ, ◌≡◌, ◌∙◌, ◌⊎◌, inl, inr, List, Bytes}
use kringkasting.Base.Map.{lookup}
use kringkasting.Store.{Series, Db}
use kringkasting.Store.Shown.{SameShown, SameShown-trans, shown_series}
use kringkasting.Feed.Cache.{}
use kringkasting.Feed.Cache.Kept.{}
use kringkasting.Feed.Cache.Races.{Reading, versioned, selected}
use kringkasting.Feed.Cache.AsOf.{IsAsOf, WasRead, WasSelected, WasTaken}

-- A read that is under way.
abbrev pub IsUnderWay : Db → List Bytes → Reading → Type 0
IsUnderWay db unbumped (versioned id version) = WasTaken id version db unbumped
IsUnderWay db unbumped (selected id version row) = WasSelected id version row db unbumped

abbrev pub Held : Db → List Bytes → Series → Type 0
Held db unbumped s = WasRead s db unbumped ⊎ (s.version ≡ 0)

-- What every fact about a read survives.
module _ (db db' : Db) (un un' : List Bytes)
    (survives : (P : Db → Type 0) (id : Bytes) (version : ℕ)
      → ((a b : Db) → SameShown id a b → P a → P b)
      → IsAsOf P id version db un
      → IsAsOf P id version db' un') where
  pub WasRead-survives : (s : Series) → WasRead s db un → WasRead s db' un'
  WasRead-survives s r = record {
    source = r.source;
    read = r.read;
    as_of =
        survives (SameShown s.id r.source) s.id s.version (λ a b same p. SameShown-trans p same)
          r.as_of;
  }

  pub IsUnderWay-survives : (r : Reading) → IsUnderWay db un r → IsUnderWay db' un' r
  IsUnderWay-survives (versioned id version) t = record {
    source = t.source;
    of_version = t.of_version;
    as_of = survives (λ d. Unit) id version (λ a b same p. tt) t.as_of;
  }
  IsUnderWay-survives (selected id version row) t = record {
    source = t.source;
    of_version = t.of_version;
    found = t.found;
    as_of =
        survives (λ d. shown_series row ≡ shown_series (lookup id d.series_table)) id version
          (λ a b same p. p ∙ same.series) t.as_of;
  }

  pub Held-survives : (s : Series) → Held db un s → Held db' un' s
  Held-survives s (inl r) = inl (WasRead-survives s r)
  Held-survives s (inr z) = inr z
